-- ===== src/Service/Threads/Rows.antt =====
-- src/oauth.rs and src/store.rs: how many codes and tokens a part of a handler adds.
use local_mcp.Common.{
  ℕ, ◌+◌, ◌≤◌, ◌≡◌, arith, Bool-cases, inl, inr, Option, none, some, [], ◌∷◌, length, length-append,
  Option-cases,
}
use local_mcp.Common.Str.{Str, bytes, str_eq}
use local_mcp.Common.Eq.{str_Eq}
use local_mcp.Common.Result.{Result, ok, err, Result-cases}
use local_mcp.Http.{Response}
use local_mcp.Table
use local_mcp.Table.{delete_where}
use local_mcp.Table.Laws.{length-delete_where, length-erase, length-erase_found}
use local_mcp.Store.Clock.{SystemTime, from_secs}
use local_mcp.Common.Int.{add_ℕ}
use local_mcp.Store.Tables.{Tables, code_key}
use local_mcp.Store.Engine.{Db, Act, pure, map_error, ◌>>=◌}
use local_mcp.Store.Inversion.{then_pure_state}
use local_mcp.Store.{PendingCode, code_row, store_code, take_code, store_token}
use local_mcp.Store.Codes.{store_code_ok, store_code_err, take_code_ok, take_code_err}
use local_mcp.Store.Tokens.{store_token_ok, store_token_err}
use local_mcp.OAuth.{Crypto, TokenRequest, server_error, check_grant, token_answer, token_ttl_secs}
use local_mcp.Service.Neutral.{Neutral}
use local_mcp.Service.Threads.{redeem, issue_token}

-- The codes and the tokens in the database.
abbrev pub rows : Tables → ℕ
rows t = length t.codes + length t.tokens

pub rows-Neutral : (n : ℕ) → Neutral (λ t. rows t ≤ n)
rows-Neutral n = record {
  clients = λ t new h. h;
  sessions = λ t new h. h;
  fewer_codes = λ t stale h. let e = length-delete_where stale t.codes in omega arith;
  fewer_tokens = λ t stale h. let e = length-delete_where stale t.tokens in omega arith;
}

-- One code, where the form carries the secret.
pub store_code-rows :
    (code : Str) (pending : PendingCode) (db : Db)
    → rows (store_code code pending db).1.tables ≤ rows db.tables + 1
store_code-rows code pending db = elim (Result-cases (store_code code pending db).0) [
  | inl (u, e) ↦
      rw ((store_code_ok code pending db e).1, length-append db.codes (code_row code pending ∷ []))
        (omega arith)
  | inr (d, e) ↦ rw (store_code_err code pending db d e) (omega arith)
]

store_token-rows :
    (t : Str) (expires_at : SystemTime) (db : Db)
    → rows (store_token t expires_at db).1.tables ≤ rows db.tables + 1
store_token-rows t expires_at db = elim (Result-cases (store_token t expires_at db).0) [
  | inl (u, e) ↦ rw ((store_token_ok t expires_at db e).1, length-append db.tokens _) (omega arith)
  | inr (d, e) ↦ rw (store_token_err t expires_at db d e) (omega arith)
]

pub then_pure-rows :
    {A B : Type 0} (m : Act Response A) (b : B) (db : Db) (n : ℕ)
    → rows (m db).1.tables ≤ n
    → rows ((m >>= λ _. pure b) db).1.tables ≤ n
then_pure-rows m b db n h = rw (then_pure_state m b db) h

pub issue_token-rows :
    (t : Str) (later : SystemTime) (db : Db)
    → rows (issue_token t later db).1.tables ≤ rows db.tables + 1
unfolding issue_token
issue_token-rows t later db =
    then_pure-rows
      (map_error (server_error (bytes "cannot record the issued token"))
        (store_token t (add_ℕ later (from_secs token_ttl_secs))))
      (token_answer t) db _ (store_token-rows t (add_ℕ later (from_secs token_ttl_secs)) db)

-- What an exchange that goes on has used up.
abbrev pub spent : Result Response (Unit {0}) → ℕ
spent (ok u) = 1
spent (err e) = 0

grant_spent : (r : Result Response (Unit {0})) → spent r ≤ 1
grant_spent (ok u) = omega arith
grant_spent (err e) = omega arith

take_code-rows :
    (code : Str) (db : Db) (o : Option PendingCode)
    → (take_code code db).0 ≡ ok o
    → rows (take_code code db).1.tables ≤ rows db.tables
take_code-rows code db o e =
    rw (take_code_ok code db o e).1 (let h = length-erase code_key code db.codes in omega arith)

take_code_found-rows :
    (code : Str) (db : Db) (pending : PendingCode)
    → (take_code code db).0 ≡ ok (some pending)
    → rows (take_code code db).1.tables + 1 ≤ rows db.tables
take_code_found-rows code db pending e =
    let (found, left) = take_code_ok code db (some pending) e in
    elim (Option-cases (Table.find code_key code db.codes)) [
      | inl missing ↦ let clash : some pending ≡ none = rw missing at found in cc
      | inr (row, at) ↦
          rw left (let h = length-erase_found code_key code db.codes row at in omega arith)
    ]

pub redeem-rows :
    (crypto : Crypto) (request : TokenRequest) (now : SystemTime) (db : Db)
    → rows (redeem crypto request now db).1.tables + spent (redeem crypto request now db).0
      ≤ rows db.tables
unfolding redeem
redeem-rows crypto request now db =
    elim (Bool-cases (str_eq request.grant_type (bytes "authorization_code"))) [
      | inr other ↦ rw other (omega arith)
      | inl right ↦ rw right (elim (Result-cases (take_code request.code db).0) [
        | inr (d, e) ↦ rw (e, take_code_err request.code db d e) (omega arith)
        | inl (none, e) ↦ rw e (let h = take_code-rows request.code db none e in omega arith)
        | inl (some pending, e) ↦ rw e (
            let h = take_code_found-rows request.code db pending e in
            let g = grant_spent (check_grant crypto request pending now) in omega arith)
      ])
    ]
