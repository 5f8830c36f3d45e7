-- ===== src/Service/Consent.antt =====
-- src/main.rs, the router: who passes the guard after a sequence of requests.
use local_mcp.Common.{
  ◌≡◌, ◌≢◌, refl, ap, ◌∙◌, ◌⊎◌, inl, inr, Bool, true, false, some, Option-cases, List, [], ◌∷◌,
  ◌++◌, All,
}
use local_mcp.Common.Str.{Str, bytes, trim}
use local_mcp.Common.Eq.{str_Eq}
use local_mcp.Common.Result.{is_some, ok}
use local_mcp.Http.{Response}
use local_mcp.Table
use local_mcp.Table.{delete_where}
use local_mcp.Table.Laws.{find-eq-some}
use local_mcp.Store
use local_mcp.Store.Clock.{SystemTime, to_epoch}
use local_mcp.Store.Tables.{TokenRow, token_key, token_expired}
use local_mcp.Store.Tokens.{token_is_valid_sweep, delete_where-All}
use local_mcp.Store.Engine.{Db, Act}
use local_mcp.OAuth.{Crypto, ConsentForm}
use local_mcp.OAuth.Consent.{IsConstantTimeEq}
use local_mcp.Auth.{Header, guard}
use local_mcp.Auth.Guard.{guard_ok}
use local_mcp.Service.{Settings, auth_state, Request, post_authorize, serve, serve_all}
use local_mcp.Service.Origin
use local_mcp.Service.Origin.{IsAmong, TokenOrigin, Explained, find-All}
use local_mcp.Service.Keeps.{serve-P}

module _ (crypto : Crypto) (parses : Str → Bool) (config : Settings) (law : IsConstantTimeEq crypto)
    (history : List Request) where
  serve_all-Explained :
      (requests : List Request) (db : Db)
      → All (λ r. IsAmong r history) requests
      → Explained crypto config history db.tables
      → Explained crypto config history (serve_all crypto parses config requests db).tables
  unfolding serve_all
  serve_all-Explained [] db among h = h
  serve_all-Explained (r ∷ requests) db (here, among) h =
      serve_all-Explained requests (serve crypto parses config r db) among
        (serve-P crypto config history parses r db law here h)

IsAmong-cons :
    (q : Request) (history requests : List Request)
    → All (λ r. IsAmong r history) requests
    → All (λ r. IsAmong r (q ∷ history)) requests
IsAmong-cons q history [] h = tt
IsAmong-cons q history (r ∷ requests) (here, h) = (inr here, IsAmong-cons q history requests h)

pub IsAmong-All : (history : List Request) → All (λ r. IsAmong r history) history
IsAmong-All [] = tt
IsAmong-All (r ∷ history) = (inl refl, IsAmong-cons r history history (IsAmong-All history))

-- A row of the table whose token is `token`, which is good at `now` and has an origin.
pub record Entitled (crypto : Crypto) (config : Settings) (history : List Request)
    (now : SystemTime) (token : Str) : Type 0 where
  pub row : TokenRow
  pub names : row.token ≡ token
  pub unexpired : token_expired (to_epoch now) row ≡ false
  pub origin : TokenOrigin crypto config history row

module _ (crypto : Crypto) (config : Settings) (history : List Request) (now : SystemTime)
    (token : Str) (db : Db) where
  valid_Entitled :
      (Store.token_is_valid now token db).0 ≡ ok true
      → Explained crypto config history db.tables
      → Entitled crypto config history now token
  valid_Entitled valid h =
      let left : List TokenRow = delete_where (token_expired (to_epoch now)) db.tokens in
      elim (Option-cases (Table.find token_key token left)) [
        | inl missing ↦
            let clash : true ≡ false =
              (token_is_valid_sweep now token db true valid).0 ∙ ap is_some missing in
            cc
        | inr (row, found) ↦ record {
          row = row;
          names = find-eq-some token_key token left row found;
          unexpired =
              find-All token_key _ token left row
                (delete_where-All (token_expired (to_epoch now)) db.tokens) found;
          origin =
              find-All token_key _ token left row
                (Origin.delete_where-All _ (token_expired (to_epoch now)) db.tokens h.tokens) found;
        }
      ]

-- Who passes the guard where the database explains its codes and tokens.
pub guard-Explained :
    {A : Type 0} (crypto : Crypto) (parses : Str → Bool) (config : Settings)
    (law : IsConstantTimeEq crypto) (history : List Request) (authorization : Header)
    (now : SystemTime) (next : Act Response A) (a : A) (db : Db)
    → Explained crypto config history db.tables
    → (guard crypto parses (auth_state config) authorization now next db).0 ≡ ok a
    → (raw : Str) × (authorization ≡ some (bytes "Bearer " ++ raw))
      × ((trim raw ≡ config.token) ⊎ Entitled crypto config history now (trim raw))
guard-Explained crypto parses config law history authorization now next a db explained h =
    let admitted = guard_ok crypto parses (auth_state config) authorization now next db law a h in
    (
      admitted.raw,
      admitted.bearer,
      elim admitted.known [
        | inl same ↦ inl same
        | inr (oauth, on, valid) ↦
            inr (valid_Entitled crypto config history now (trim admitted.raw) db valid explained)
      ],
    )

-- Without a consent, nobody is entitled.
pub unconsented :
    (crypto : Crypto) (config : Settings) (history : List Request) (now : SystemTime) (token : Str)
    → ((form : ConsentForm) (code : Str) (now : SystemTime)
        → IsAmong (post_authorize form code now) history
        → trim form.token ≢ config.token)
    → (token ≡ config.token) ⊎ Entitled crypto config history now token
    → token ≡ config.token
unconsented crypto config history now token refused (inl same) = same
unconsented crypto config history now token refused (inr entitled) =
    let consent = entitled.origin.code_origin in
    absurd (refused consent.form consent.code consent.now consent.submitted consent.consented)

module _ (crypto : Crypto) (parses : Str → Bool) (config : Settings) (law : IsConstantTimeEq crypto)
    (history : List Request) (start : Db) (no_codes : start.codes ≡ [])
    (no_tokens : start.tokens ≡ []) where
  -- The database after the history explains its codes and tokens.
  after_Explained :
      Explained crypto config history (serve_all crypto parses config history start).tables
  after_Explained =
      serve_all-Explained crypto parses config law history history start (IsAmong-All history)
        (record { codes = rw no_codes tt; tokens = rw no_tokens tt })

  -- With a comparison that answers equality: after any sequence of requests to a database that held no
  -- code and no token, a request that gets an answer from behind the guard carried the configured
  -- token, or a token that has not expired and that was issued for a code which agreed with the token request (redirect URI, PKCE verifier,
  -- expiry) and which a consent form with the configured token had asked for.
  pub guard-serve_all :
      {A : Type 0} (authorization : Header) (now : SystemTime) (next : Act Response A) (a : A)
      → (guard crypto parses
          (auth_state config)
          authorization
          now
          next
          (serve_all crypto parses config history start)).0
        ≡ ok a
      → (raw : Str) × (authorization ≡ some (bytes "Bearer " ++ raw))
        × ((trim raw ≡ config.token) ⊎ Entitled crypto config history now (trim raw))
  guard-serve_all authorization now next a h =
      guard-Explained crypto parses config law history authorization now next a
        (serve_all crypto parses config history start) after_Explained h

  -- With a comparison that answers equality, and from a database that held no code and no token:
  -- without a consent form that carried the configured token, no sequence of requests gets anyone past
  -- the guard who does not carry the configured token.
  pub guard-serve_all_unconsented :
      ((form : ConsentForm) (code : Str) (now : SystemTime)
        → IsAmong (post_authorize form code now) history
        → trim form.token ≢ config.token)
      → {A : Type 0} (authorization : Header) (now : SystemTime) (next : Act Response A) (a : A)
      → (guard crypto parses
          (auth_state config)
          authorization
          now
          next
          (serve_all crypto parses config history start)).0
        ≡ ok a
      → (raw : Str) × (authorization ≡ some (bytes "Bearer " ++ raw)) × (trim raw ≡ config.token)
  guard-serve_all_unconsented refused authorization now next a h =
      let (raw, bearer, reason) = guard-serve_all authorization now next a h in
      (raw, bearer, unconsented crypto config history now (trim raw) refused reason)
