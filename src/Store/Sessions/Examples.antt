-- ===== src/Store/Sessions/Examples.antt =====
-- Sessions and clients in the store at concrete databases.
use local_mcp.Common.{◌≡◌, refl, false, some, List, [], ◌∷◌}
use local_mcp.Common.Int.{leℤ}
use local_mcp.Common.Str.{Str, bytes, str_eq}
use local_mcp.Common.Eq.{str_Eq}
use local_mcp.Common.Result.{ok, err}
use local_mcp.Table
use local_mcp.Store.Clock.{from_secs, to_epoch, checked_sub}
use local_mcp.Store.Tables.{
  refused, insert_client, upsert_session, update_session_returning, delete_session_row,
  delete_idle_sessions,
}
use local_mcp.Store.Engine.{Db, lock, execute, transaction}
use local_mcp.Store.{
  insert_uris, register_client, save_session, load_session, delete_session, sweep_sessions,
  sweep_cutoff,
}
use local_mcp.Store.Examples.{at, db, faulty}

-- `db` after another handshake of its session.
abbrev saved : Db
saved = (save_session (at 90) (bytes "s") (bytes "{2}") db).1

saved_ok : (save_session (at 90) (bytes "s") (bytes "{2}") db).0 ≡ ok tt
unfolding save_session lock execute upsert_session
saved_ok = refl

loaded_back : (load_session (at 95) (bytes "s") saved).0 ≡ ok (some (bytes "{2}"))
unfolding save_session load_session lock execute upsert_session update_session_returning
    Table.upsert Table.find str_eq
loaded_back = refl

deleted_ok : (delete_session (bytes "q") db).0 ≡ ok tt
unfolding delete_session lock execute delete_session_row
deleted_ok = refl

loaded_other :
    (load_session (at 95) (bytes "s") (delete_session (bytes "q") db).1).0 ≡ ok (some (bytes "{}"))
unfolding delete_session load_session lock execute delete_session_row update_session_returning
    Table.erase Table.find str_eq
loaded_other = refl

swept_ok : (sweep_sessions (at 100) (from_secs 10) db).0 ≡ ok 1
unfolding sweep_sessions lock execute delete_idle_sessions Table.count_where to_epoch checked_sub
swept_ok = refl

-- `db` after its session was touched.
abbrev touched : Db
touched = (load_session (at 95) (bytes "s") db).1

touched_ok : (load_session (at 95) (bytes "s") db).0 ≡ ok (some (bytes "{}"))
unfolding load_session lock execute update_session_returning Table.find str_eq
touched_ok = refl

touched_swept : (sweep_sessions (at 100) (from_secs 10) touched).0 ≡ ok 0
unfolding load_session sweep_sessions lock execute update_session_returning delete_idle_sessions
    Table.update Table.count_where str_eq to_epoch checked_sub
touched_swept = refl

later_than_cutoff : leℤ (to_epoch (at 95)) (to_epoch (sweep_cutoff (at 100) (from_secs 10))) ≡ false
unfolding to_epoch checked_sub
later_than_cutoff = refl

abbrev uris : List Str
uris = bytes "https://a" ∷ bytes "https://b" ∷ []

refused_half_way : (register_client (bytes "d") uris faulty).0 ≡ err refused
unfolding register_client insert_uris lock execute transaction insert_client
refused_half_way = refl

registers : (register_client (bytes "c") uris db).0 ≡ ok tt
unfolding register_client insert_uris lock execute transaction insert_client
registers = refl
