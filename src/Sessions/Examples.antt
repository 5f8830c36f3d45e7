-- ===== src/Sessions/Examples.antt =====
-- The session store with handshakes that are their own text.
use local_mcp.Common.{◌≡◌, refl, none, some, [], arith}
use local_mcp.Common.Int.{pos}
use local_mcp.Common.Str.{Str, bytes, str_eq}
use local_mcp.Common.Eq.{str_Eq}
use local_mcp.Common.Result.{ok}
use local_mcp.Table
use local_mcp.Store
use local_mcp.Store.Tables.{upsert_session, update_session_returning, delete_session_row}
use local_mcp.Store.Engine.{Db, lock, execute}
use local_mcp.Sessions.{Serde, load, store, delete}
use local_mcp.Sessions.Laws.{IsRoundTrip, load-store}

abbrev serde : Serde Str
serde = record { to_string = λ p. some p; from_str = λ s. some s }

serde-IsRoundTrip : IsRoundTrip serde
serde-IsRoundTrip = record { from_str-to_string = λ p s h. ground arith }

abbrev db : Db
db = record {
  tables = record { clients = []; codes = []; tokens = []; sessions = [] };
  faults = [];
}

abbrev after : Db
after = (store serde (pos 5) (bytes "s") (bytes "{}") db).1

stored : (store serde (pos 5) (bytes "s") (bytes "{}") db).0 ≡ ok tt
unfolding store Store.save_session lock execute upsert_session
stored = refl

loaded : (load serde (pos 6) (bytes "s") after).0 ≡ ok (some (bytes "{}"))
unfolding store load Store.save_session Store.load_session lock execute upsert_session
    update_session_returning Table.upsert Table.find str_eq
loaded = refl

load-store_example : some (bytes "{}") ≡ some (bytes "{}")
load-store_example =
    load-store serde serde-IsRoundTrip (pos 5) (pos 6) (bytes "s") (bytes "{}") db
      (some (bytes "{}")) stored loaded

deleted : (delete (bytes "s") after).0 ≡ ok tt
unfolding store delete Store.save_session Store.delete_session lock execute upsert_session
    delete_session_row
deleted = refl

not_found : (load serde (pos 6) (bytes "s") (delete (bytes "s") after).1).0 ≡ ok none
unfolding store load delete Store.save_session Store.load_session Store.delete_session lock execute
    upsert_session update_session_returning delete_session_row Table.upsert Table.find Table.erase
    str_eq
not_found = refl
