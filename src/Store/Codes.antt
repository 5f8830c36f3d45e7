-- ===== src/Store/Codes.antt =====
-- The authorization codes of src/store.rs: `store_code` and `take_code`.
use local_mcp.Common.{◌≡◌, ◌≢◌, refl, ap, ◌∙◌, [], ◌∷◌, ◌++◌, Option, none, some, arith}
use local_mcp.Common.Str.{Str, str_eq_refl}
use local_mcp.Common.Eq.{str_Eq}
use local_mcp.Common.Result.{ok, err}
use local_mcp.Table
use local_mcp.Table.Laws.{find-erase, find-append_one}
use local_mcp.Store.Clock.{to_epoch, from_epoch}
use local_mcp.Store.Tables.{Tables, DbError, code_key, insert_code, delete_code_returning}
use local_mcp.Store.Engine.{Db, lock, execute}
use local_mcp.Store.{PendingCode, code_row, of_code_row, map_option, store_code, take_code}

-- What a successful `take_code` answers and leaves.
pub take_code_ok :
    (code : Str) (db : Db) (o : Option PendingCode)
    → (take_code code db).0 ≡ ok o
    → (o ≡ map_option of_code_row (Table.find code_key code db.codes))
      × ((take_code code db).1.tables
          ≡ record db.tables { codes = Table.erase code_key code db.codes })
unfolding take_code lock execute delete_code_returning
take_code_ok code db o h = ground arith

-- A failed `take_code` leaves the tables alone.
pub take_code_err :
    (code : Str) (db : Db) (e : DbError)
    → (take_code code db).0 ≡ err e
    → (take_code code db).1.tables ≡ db.tables
unfolding take_code lock execute delete_code_returning
take_code_err code db e h = ground arith

-- A code that `take_code` has answered for is gone, and a later `take_code` does not find it.
pub take_code_once :
    (code : Str) (db : Db) (o : Option PendingCode)
    → (take_code code db).0 ≡ ok o
    → (p : PendingCode) → (take_code code (take_code code db).1).0 ≢ ok (some p)
take_code_once code db o h p again =
    let left : (take_code code db).1.codes ≡ Table.erase code_key code db.codes =
      ap (λ (t : Tables). t.codes) (take_code_ok code db o h).1 in
    let gone : Table.find code_key code (take_code code db).1.codes ≡ none =
      rw (left, find-erase code_key code code db.codes, str_eq_refl code) refl in
    let found : some p ≡ map_option of_code_row none =
      rw gone at (take_code_ok code (take_code code db).1 (some p) again).0 in
    cc

-- What a successful `store_code` found and leaves.
pub store_code_ok :
    (code : Str) (pending : PendingCode) (db : Db)
    → (store_code code pending db).0 ≡ ok tt
    → (Table.find code_key code db.codes ≡ none)
      × ((store_code code pending db).1.tables
          ≡ record db.tables { codes = db.codes ++ code_row code pending ∷ [] })
unfolding store_code lock execute insert_code Table.insert
store_code_ok code pending db h = ground arith

-- A failed `store_code` leaves the tables alone.
pub store_code_err :
    (code : Str) (pending : PendingCode) (db : Db) (e : DbError)
    → (store_code code pending db).0 ≡ err e
    → (store_code code pending db).1.tables ≡ db.tables
unfolding store_code lock execute insert_code
store_code_err code pending db e h = ground arith

-- A code that was stored comes back from the database as it was, but for its expiry, which has gone
-- to seconds and back.
pub take_code-store_code :
    (code : Str) (pending : PendingCode) (db : Db) (o : Option PendingCode)
    → (store_code code pending db).0 ≡ ok tt
    → (take_code code (store_code code pending db).1).0 ≡ ok o
    → o ≡ some (record pending { expires_at = from_epoch (to_epoch pending.expires_at) })
take_code-store_code code pending db o stored taken =
    let (free, left) = store_code_ok code pending db stored in
    (take_code_ok code (store_code code pending db).1 o taken).0
    ∙ rw (
      left,
      find-append_one code_key code db.codes (code_row code pending) free,
      str_eq_refl code,
    )
