-- ===== src/Store/Open.antt =====
-- src/store.rs: `Store::open`. What the file holds, and the calls that make its directory and open it,
-- are parameters.
use local_mcp.Common.{◌≡◌, refl, arith, Bool, Option, none, some, List, [], if◌then◌else◌}
use local_mcp.Common.Result.{Result, ok, err, map_err, map_err-eq-ok, bind-eq-ok, ◌>>=◌}
use local_mcp.FilePath.{PathBuf, parent}
use local_mcp.Root.{IoError}
use local_mcp.Store.Tables.{Tables, ClientRow, CodeRow, TokenRow, SessionRow, DbError, refused}
use local_mcp.Store.Engine.{Db, failing, advance}

-- The tables of a database file, as far as they are there.
pub record Stored : Type 0 where
  pub clients : Option (List ClientRow)
  pub codes : Option (List CodeRow)
  pub tokens : Option (List TokenRow)
  pub sessions : Option (List SessionRow)

-- A connection: what the file holds, and which of the attempts on it will fail.
pub record Connection : Type 0 where
  pub stored : Stored
  pub faults : List Bool

pub record Opening : Type 0 where
  pub create_dir_all : PathBuf → Result IoError (Unit {0})
  -- `Connection::open`
  pub connect : PathBuf → Result DbError Connection

pub data OpenError : Type 0 where
  cannot_create : PathBuf → IoError → OpenError
  cannot_open : PathBuf → DbError → OpenError
  cannot_create_tables : DbError → OpenError

-- `CREATE TABLE IF NOT EXISTS`
abbrev pub or_created : {R : Type 0} → Option (List R) → List R
or_created none = []
or_created (some rows) = rows

unfoldable pub create_tables : Stored → Tables
create_tables stored = record {
  clients = or_created stored.clients;
  codes = or_created stored.codes;
  tokens = or_created stored.tokens;
  sessions = or_created stored.sessions;
}

unfoldable pub make_parent : Opening → Option PathBuf → Result OpenError (Unit {0})
make_parent opening none = ok tt
make_parent opening (some p) = map_err (cannot_create p) (opening.create_dir_all p)

-- `connection.execute_batch(...)`
unfoldable pub execute_batch : Connection → Result OpenError Db
execute_batch connection =
    if failing connection.faults
    then err (cannot_create_tables refused)
    else ok
        (record { tables = create_tables connection.stored; faults = advance connection.faults })

unfoldable pub open_store : Opening → PathBuf → Result OpenError Db
open_store opening path = do
  _ ← make_parent opening (parent path)
  connection ← map_err (cannot_open path) (opening.connect path)
  execute_batch connection

-- What the file holds when the process has ended: every table.
abbrev pub closed : Tables → Stored
closed t = record {
  clients = some t.clients;
  codes = some t.codes;
  tokens = some t.tokens;
  sessions = some t.sessions;
}

-- A file that was opened once holds after the next opening what it held before.
pub create_tables-closed : (t : Tables) → create_tables (closed t) ≡ t
unfolding create_tables
create_tables-closed t = refl

pub open_store_ok :
    (opening : Opening) (path : PathBuf) (db : Db)
    → open_store opening path ≡ ok db
    → (c : Connection) × (opening.connect path ≡ ok c) × (db.tables ≡ create_tables c.stored)
unfolding open_store execute_batch
open_store_ok opening path db h =
    let (made, first, rest) = bind-eq-ok (make_parent opening (parent path)) _ h in
    let (c, opened, last) = bind-eq-ok (map_err (cannot_open path) (opening.connect path)) _ rest in
    (c, map_err-eq-ok _ _ opened, ground (arith, last))
