-- ===== src/OAuth/Exchange.antt =====
-- src/oauth.rs: the token endpoint, where it answers with a token.
use local_mcp.Common.{
  ◌≡◌, refl, ap, ◌∙◌, false, Bool-cases, inl, inr, Option, none, some, [], ◌∷◌, ◌++◌, arith,
}
use local_mcp.Common.Int.{ltℤ, add_ℕ}
use local_mcp.Common.Str.{Str, bytes, str_eq, str_eq_iff}
use local_mcp.Common.Result.{ok, ok_or, err-ne-ok, map_err-eq-ok, ok_or-eq-ok}
use local_mcp.Common.Eq.{str_Eq}
use local_mcp.Json.{Json}
use local_mcp.Table
use local_mcp.Store.Clock.{SystemTime, from_secs, to_epoch}
use local_mcp.Store.Tables.{Tables, CodeRow, code_key, TokenRow, token_key}
use local_mcp.Store.Engine.{Db, lift, map_error}
use local_mcp.Store.Inversion.{bind_ok}
use local_mcp.Store.{PendingCode, of_code_row, map_option, take_code, store_token}
use local_mcp.Store.Codes.{take_code_ok}
use local_mcp.Store.Tokens.{store_token_ok}
use local_mcp.OAuth.{
  Crypto, TokenRequest, token_ttl_secs, token_answer, check_grant, exchange, token,
}

-- What the code and the request must agree on.
pub record Granted (crypto : Crypto) (request : TokenRequest) (pending : PendingCode)
    (now : SystemTime) : Type 0 where
  pub unexpired : ltℤ pending.expires_at now ≡ false
  pub same_redirect : pending.redirect_uri ≡ request.redirect_uri
  pub pkce : crypto.base64_url (crypto.sha256 request.code_verifier) ≡ pending.code_challenge

pub check_grant-Granted :
    (crypto : Crypto) (request : TokenRequest) (pending : PendingCode) (now : SystemTime)
    → check_grant crypto request pending now ≡ ok tt
    → Granted crypto request pending now
unfolding check_grant
check_grant-Granted crypto request pending now h = ground (
  arith,
  str_eq_iff pending.redirect_uri request.redirect_uri,
  str_eq_iff (crypto.base64_url (crypto.sha256 request.code_verifier)) pending.code_challenge,
)

-- The row that an exchange writes.
abbrev pub token_row : Str → SystemTime → TokenRow
token_row access_token later = record {
  token = access_token;
  expires_at = to_epoch (add_ℕ later (from_secs token_ttl_secs));
}

-- A successful exchange: the code was pending, it and the request agree, the code is gone and the
-- token, which was not in use, is stored.
pub record Exchanged (crypto : Crypto) (request : TokenRequest) (access_token : Str)
    (now later : SystemTime) (before after : Tables) : Type 0 where
  pub row : CodeRow
  pub pending : Table.find code_key request.code before.codes ≡ some row
  pub granted : Granted crypto request (of_code_row row) now
  pub unused : Table.find token_key access_token before.tokens ≡ none
  pub left : after ≡ record before {
    codes = Table.erase code_key request.code before.codes;
    tokens = before.tokens ++ token_row access_token later ∷ [];
  }

pub row_of_pending :
    (o : Option CodeRow) (p : PendingCode)
    → some p ≡ map_option of_code_row o
    → (r : CodeRow) × (o ≡ some r) × (of_code_row r ≡ p)
row_of_pending none p h = cc
row_of_pending (some r) p h = (r, refl, ground arith)

-- The state that the exchange leaves, from what its four steps found.
module _ (crypto : Crypto) (request : TokenRequest) (access_token : Str) (now later : SystemTime)
    (db : Db) (answer : Json)
    (h : (exchange crypto request access_token now later db).0 ≡ ok answer) where
  -- The run through the four steps, with the database after the first.
  record Run : Type 0 where
    found : PendingCode
    took : (take_code request.code db).0 ≡ ok (some found)
    checked : check_grant crypto request found now ≡ ok tt
    stored :
        (store_token access_token
          (add_ℕ later (from_secs token_ttl_secs))
          (take_code request.code db).1).0
        ≡ ok tt
    answered : answer ≡ token_answer access_token
    state :
        (exchange crypto request access_token now later db).1
        ≡ (store_token access_token
            (add_ℕ later (from_secs token_ttl_secs))
            (take_code request.code db).1).1

  run : Run
  unfolding exchange
  run =
      let p₁ = bind_ok _ (map_error _ (take_code request.code)) db answer h in
      let db₁ : Db = (take_code request.code db).1 in
      let p₂ = bind_ok _ (lift (ok_or _ p₁.value)) db₁ answer p₁.rest in
      let p₃ = bind_ok _ (lift (check_grant crypto request p₂.value now)) db₁ answer p₂.rest in
      let p₄ =
        bind_ok _ (map_error _ (store_token access_token (add_ℕ later (from_secs token_ttl_secs))))
          db₁ answer p₃.rest in
      record {
        found = p₂.value;
        took = map_err-eq-ok _ _ p₁.first ∙ ap ok (ok_or-eq-ok _ _ p₂.first);
        checked = p₃.first;
        stored = map_err-eq-ok _ _ p₄.first;
        answered = ground (arith, p₄.rest);
        state = ap (λ x. x.1) (p₁.same ∙ p₂.same ∙ p₃.same ∙ p₄.same);
      }

  pub exchange_ok :
      (answer ≡ token_answer access_token)
      × Exchanged crypto request access_token now later db.tables
          (exchange crypto request access_token now later db).1.tables
  exchange_ok =
      let r = run in
      let db₁ : Db = (take_code request.code db).1 in
      let (pending, left₁) = take_code_ok request.code db (some r.found) r.took in
      let (row, at, same) =
        row_of_pending (Table.find code_key request.code db.codes) r.found pending in
      let (unused, left₂) =
        store_token_ok access_token (add_ℕ later (from_secs token_ttl_secs)) db₁ r.stored in
      (
        r.answered,
        record {
          row = row;
          pending = at;
          granted = rw same (check_grant-Granted crypto request r.found now r.checked);
          unused = rw left₁ at unused;
          left = ap (λ (d : Db). d.tables) r.state ∙ left₂ ∙ rw left₁ refl;
        },
      )

-- When the token endpoint answers with a token, the grant type was `authorization_code`, the code
-- was in the database, it had not expired, its redirect URI is the request's and its challenge is
-- the digest of the request's verifier; then the code is gone, and exactly one token has been added,
-- which was not there before, with the lifetime of 30 days.
pub token_ok :
    (crypto : Crypto) (request : TokenRequest) (access_token : Str) (now later : SystemTime)
    (db : Db) (answer : Json)
    → (token crypto request access_token now later db).0 ≡ ok answer
    → (request.grant_type ≡ bytes "authorization_code")
      × (answer ≡ token_answer access_token)
      × Exchanged crypto request access_token now later db.tables
          (token crypto request access_token now later db).1.tables
unfolding token
token_ok crypto request access_token now later db answer h =
    elim (Bool-cases (str_eq request.grant_type (bytes "authorization_code"))) [
      | inl e ↦
          let done = exchange_ok crypto request access_token now later db answer (rw e at h) in
          ((str_eq_iff _ _).0 e, done.0, rw e done.1)
      | inr e ↦ err-ne-ok _ _ (rw e at h)
    ]
