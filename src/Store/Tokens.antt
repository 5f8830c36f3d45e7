-- ===== src/Store/Tokens.antt =====
-- The access tokens of src/store.rs: `store_token` and `token_is_valid`.
use local_mcp.Common.{
  ◌≡◌, refl, ◌∙◌, ◌++◌, Bool, false, Option, none, some, arith, not, All, List, [], ◌∷◌,
}
use local_mcp.Common.Int.{ℤ, leℤ}
use local_mcp.Common.Str.{Str, str_eq_refl}
use local_mcp.Common.Eq.{str_Eq}
use local_mcp.Common.Result.{is_some, ok, err}
use local_mcp.Table
use local_mcp.Table.{IsKeyed, delete_where}
use local_mcp.Table.Laws.{find-delete_where, find-append_one, unless}
use local_mcp.Store.Clock.{SystemTime, to_epoch}
use local_mcp.Store.Tables.{
  DbError, TokenRow, token_key, insert_token, select_token, delete_expired_codes,
  delete_expired_tokens, token_expired, code_expired,
}
use local_mcp.Store.Engine.{Db, lock, execute}
use local_mcp.Store.Keys.{HasKeys}
use local_mcp.Store.Calls.{store_token-HasKeys}
use local_mcp.Store.{store_token, token_is_valid}

-- A row of the token that is still good at `now`.
abbrev pub live : ℤ → Option TokenRow → Bool
live now none = false
live now (some r) = not (leℤ r.expires_at now)

pub token_is_valid_sweep :
    (now : SystemTime) (token : Str) (db : Db) (b : Bool)
    → (token_is_valid now token db).0 ≡ ok b
    → (b
        ≡ is_some
            (Table.find token_key token (delete_where (token_expired (to_epoch now)) db.tokens)))
      × ((token_is_valid now token db).1.tables ≡ record db.tables {
        tokens = delete_where (token_expired (to_epoch now)) db.tokens;
        codes = delete_where (code_expired (to_epoch now)) db.codes;
      })
unfolding token_is_valid lock execute delete_expired_tokens delete_expired_codes select_token
token_is_valid_sweep now token db b h = ground arith

live-unless : (now : ℤ) (o : Option TokenRow) → is_some (unless (token_expired now) o) ≡ live now o
live-unless now none = refl
live-unless now (some r) = ground arith

-- Where the tokens are keyed, a check that returns says of a token whether a row of it is in the
-- database that expires after the current second.
pub token_is_valid-live :
    (now : SystemTime) (token : Str) (db : Db) (b : Bool)
    → IsKeyed token_key db.tokens
    → (token_is_valid now token db).0 ≡ ok b
    → b ≡ live (to_epoch now) (Table.find token_key token db.tokens)
token_is_valid-live now token db b keyed h =
    (token_is_valid_sweep now token db b h).0
    ∙ rw (find-delete_where token_key token (token_expired (to_epoch now)) db.tokens keyed)
        (live-unless (to_epoch now) (Table.find token_key token db.tokens))

pub delete_where-All :
    {R : Type 0} (stale : R → Bool) (rows : List R)
    → All (λ r. stale r ≡ false) (delete_where stale rows)
unfolding delete_where
delete_where-All stale [] = tt
delete_where-All stale (r ∷ rows) = ground (arith, delete_where-All stale rows)

-- Every check that returns leaves only tokens and codes that expire after the current second.
pub token_is_valid_sweeps :
    (now : SystemTime) (token : Str) (db : Db) (b : Bool)
    → (token_is_valid now token db).0 ≡ ok b
    → All (λ r. token_expired (to_epoch now) r ≡ false) (token_is_valid now token db).1.tokens
      × All (λ r. code_expired (to_epoch now) r ≡ false) (token_is_valid now token db).1.codes
token_is_valid_sweeps now token db b h = rw (token_is_valid_sweep now token db b h).1 (
  delete_where-All (token_expired (to_epoch now)) db.tokens,
  delete_where-All (code_expired (to_epoch now)) db.codes,
)

pub store_token_ok :
    (token : Str) (expires_at : SystemTime) (db : Db)
    → (store_token token expires_at db).0 ≡ ok tt
    → (Table.find token_key token db.tokens ≡ none)
      × ((store_token token expires_at db).1.tables ≡ record db.tables {
        tokens = db.tokens ++ record { token = token; expires_at = to_epoch expires_at } ∷ [];
      })
unfolding store_token lock execute insert_token Table.insert
store_token_ok token expires_at db h = ground arith

pub store_token_err :
    (token : Str) (expires_at : SystemTime) (db : Db) (e : DbError)
    → (store_token token expires_at db).0 ≡ err e
    → (store_token token expires_at db).1.tables ≡ db.tables
unfolding store_token lock execute insert_token
store_token_err token expires_at db e h = ground arith

-- On tables with their keys, a token that has just been stored is valid at the seconds before its
-- expiry, and from then on it is not, where the check returns.
pub token_is_valid-store_token :
    (token : Str) (expires_at now : SystemTime) (db : Db) (b : Bool)
    → HasKeys db.tables
    → (store_token token expires_at db).0 ≡ ok tt
    → (token_is_valid now token (store_token token expires_at db).1).0 ≡ ok b
    → b ≡ not (leℤ (to_epoch expires_at) (to_epoch now))
token_is_valid-store_token token expires_at now db b keys stored checked =
    let after : Db = (store_token token expires_at db).1 in
    let (free, left) = store_token_ok token expires_at db stored in
    let keyed : IsKeyed token_key after.tokens =
      ((store_token-HasKeys token expires_at).at db keys).tokens in
    token_is_valid-live now token after b keyed checked
    ∙ rw (
      left,
      find-append_one token_key token db.tokens
          (record { token = token; expires_at = to_epoch expires_at }) free,
      str_eq_refl token,
    )
