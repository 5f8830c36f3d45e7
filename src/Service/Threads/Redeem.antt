-- ===== src/Service/Threads/Redeem.antt =====
-- src/oauth.rs: the first half of `token`, up to its checks.
use local_mcp.Common.{◌≡◌, sym, subst, inl, inr, Bool-cases, none, some}
use local_mcp.Common.Str.{Str, bytes, str_eq}
use local_mcp.Common.Eq.{str_Eq}
use local_mcp.Common.Result.{ok, Result-cases, err-ne-ok}
use local_mcp.Table
use local_mcp.Store.{of_code_row, take_code}
use local_mcp.Store.Clock.{SystemTime}
use local_mcp.Store.Codes.{take_code_ok, take_code_err}
use local_mcp.Store.Tables.{Tables, CodeRow, code_key}
use local_mcp.Store.Engine.{Db}
use local_mcp.OAuth.{Crypto, TokenRequest}
use local_mcp.OAuth.Exchange.{Granted, check_grant-Granted, row_of_pending}
use local_mcp.Service.Threads.{redeem}

-- What a token request has found when its checks pass.
pub record Redeemable (crypto : Crypto) (request : TokenRequest) (now : SystemTime)
    (before : Tables) : Type 0 where
  pub row : CodeRow
  pub pending : Table.find code_key request.code before.codes ≡ some row
  pub granted : Granted crypto request (of_code_row row) now

pub redeem_ok :
    (crypto : Crypto) (request : TokenRequest) (now : SystemTime) (db : Db)
    → (redeem crypto request now db).0 ≡ ok tt
    → Redeemable crypto request now db.tables
unfolding redeem
redeem_ok crypto request now db h =
    elim (Bool-cases (str_eq request.grant_type (bytes "authorization_code"))) [
      | inr other ↦ err-ne-ok _ _ (rw other at h)
      | inl right ↦ elim (Result-cases (take_code request.code db).0) [
        | inr (d, e) ↦ err-ne-ok _ _ (rw (right, e) at h)
        | inl (none, e) ↦ err-ne-ok _ _ (rw (right, e) at h)
        | inl (some found, e) ↦
            let (row, at, same) =
              row_of_pending _ found (take_code_ok request.code db (some found) e).0 in
            record {
              row = row;
              pending = at;
              granted = rw same (check_grant-Granted crypto request found now (rw (right, e) at h));
            }
      ]
    ]

module _ (P : Tables → Type 0) (code : Str) where
  take_code-P :
      (db : Db)
      → P db.tables
      → P (record db.tables { codes = Table.erase code_key code db.codes })
      → P (take_code code db).1.tables
  take_code-P db same gone = elim (Result-cases (take_code code db).0) [
    | inl (o, e) ↦ subst P (sym (take_code_ok code db o e).1) gone
    | inr (d, e) ↦ subst P (sym (take_code_err code db d e)) same
  ]

pub redeem-P :
    (P : Tables → Type 0) (crypto : Crypto) (request : TokenRequest) (now : SystemTime) (db : Db)
    → P db.tables
    → P (record db.tables { codes = Table.erase code_key request.code db.codes })
    → P (redeem crypto request now db).1.tables
unfolding redeem
redeem-P P crypto request now db same gone =
    let left = take_code-P P request.code db same gone in
    elim (Bool-cases (str_eq request.grant_type (bytes "authorization_code"))) [
      | inr other ↦ rw other same
      | inl right ↦ rw right (elim (Result-cases (take_code request.code db).0) [
        | inr (d, e) ↦ rw e left
        | inl (none, e) ↦ rw e left
        | inl (some found, e) ↦ rw e left
      ])
    ]
