-- ===== src/Store/Sessions.antt =====
-- The sessions of src/store.rs: `save_session`, `load_session`, `delete_session`, `sweep_sessions`.
mod Examples
use mathlib.Core.Option
use local_mcp.Common.{
  ℕ, ◌+◌, length, ◌≡◌, refl, sym, ap, ◌∙◌, Option, none, some, arith, if◌then◌else◌, Bool, true,
  false,
}
use local_mcp.Common.Int.{ℤ, leℤ}
use local_mcp.Common.Str.{Str, str_eq, str_eq_iff, str_eq_refl}
use local_mcp.Common.Eq.{str_Eq}
use local_mcp.Common.Result.{Result, ok, err}
use local_mcp.Table
use local_mcp.Table.{IsKeyed, delete_where, count_where}
use local_mcp.Table.Laws.{
  find-delete_where, find-erase, find-upsert, find-update, update-IsKeyed, unless,
  length-delete_where,
}
use local_mcp.Store.Clock.{SystemTime, Duration, to_epoch}
use local_mcp.Store.Tables.{
  Tables, DbError, SessionRow, session_key, upsert_session, update_session_returning,
  delete_session_row, delete_idle_sessions, touch, idle_since,
}
use local_mcp.Store.Engine.{Db, lock, execute}
use local_mcp.Store.{
  params_of, map_option, sweep_cutoff, save_session, load_session, delete_session, sweep_sessions,
}

-- The handshake that the database holds for an id.
abbrev pub handshake : Str → Tables → Option Str
handshake id t = map_option params_of (Table.find session_key id t.sessions)

save_session_ok :
    (now : SystemTime) (id params : Str) (db : Db)
    → (save_session now id params db).0 ≡ ok tt
    → (save_session now id params db).1.tables ≡ record db.tables {
      sessions =
          Table.upsert session_key
            (record { session_id = id; initialize_params = params; last_seen = to_epoch now })
            db.sessions;
    }
unfolding save_session lock execute upsert_session
save_session_ok now id params db h = ground arith

pub load_session_ok :
    (now : SystemTime) (id : Str) (db : Db) (o : Option Str)
    → (load_session now id db).0 ≡ ok o
    → (o ≡ handshake id db.tables)
      × ((load_session now id db).1.tables ≡ record db.tables {
        sessions = Table.update session_key id (touch (to_epoch now)) db.sessions;
      })
unfolding load_session lock execute update_session_returning
load_session_ok now id db o h = ground arith

delete_session_ok :
    (id : Str) (db : Db)
    → (delete_session id db).0 ≡ ok tt
    → (delete_session id db).1.tables
      ≡ record db.tables { sessions = Table.erase session_key id db.sessions }
unfolding delete_session lock execute delete_session_row
delete_session_ok id db h = ground arith

sweep_sessions_ok :
    (now : SystemTime) (retention : Duration) (db : Db) (n : ℕ)
    → (sweep_sessions now retention db).0 ≡ ok n
    → (n ≡ count_where (idle_since (to_epoch (sweep_cutoff now retention))) db.sessions)
      × ((sweep_sessions now retention db).1.tables ≡ record db.tables {
        sessions = delete_where (idle_since (to_epoch (sweep_cutoff now retention))) db.sessions;
      })
unfolding sweep_sessions lock execute delete_idle_sessions
sweep_sessions_ok now retention db n h = ground arith

pub sweep_sessions_err :
    (now : SystemTime) (retention : Duration) (db : Db) (e : DbError)
    → (sweep_sessions now retention db).0 ≡ err e
    → (sweep_sessions now retention db).1.tables ≡ db.tables
unfolding sweep_sessions lock execute delete_idle_sessions
sweep_sessions_err now retention db e h = ground arith

map_option-if :
    (c : Bool) (r : SessionRow) (o : Option SessionRow)
    → map_option params_of (if c then some r else o)
      ≡ (if c then some r.initialize_params else map_option params_of o)
map_option-if c r o = ground arith

-- A saved handshake is the one that is loaded, also where the id had another before; every other
-- id loads what it loaded before.
pub load_session-save_session :
    (now later : SystemTime) (id j params : Str) (db : Db) (o : Option Str)
    → (save_session now id params db).0 ≡ ok tt
    → (load_session later j (save_session now id params db).1).0 ≡ ok o
    → o ≡ (if str_eq id j then some params else handshake j db.tables)
load_session-save_session now later id j params db o saved loaded =
    (load_session_ok later j (save_session now id params db).1 o loaded).0
    ∙ rw
        (
          save_session_ok now id params db saved,
          find-upsert session_key j
              (record { session_id = id; initialize_params = params; last_seen = to_epoch now })
              db.sessions,
        )
        (map_option-if (str_eq id j) _ (Table.find session_key j db.sessions))

none-if :
    (c : Bool) (o : Option SessionRow)
    → map_option params_of (if c then none else o) ≡ (if c then none else map_option params_of o)
none-if c o = ground arith

-- A deleted session is not loaded again; every other id loads what it loaded before.
pub load_session-delete_session :
    (later : SystemTime) (id j : Str) (db : Db) (o : Option Str)
    → (delete_session id db).0 ≡ ok tt
    → (load_session later j (delete_session id db).1).0 ≡ ok o
    → o ≡ (if str_eq id j then none else handshake j db.tables)
load_session-delete_session later id j db o deleted loaded =
    (load_session_ok later j (delete_session id db).1 o loaded).0
    ∙ rw (delete_session_ok id db deleted, find-erase session_key j id db.sessions)
        (none-if (str_eq id j) (Table.find session_key j db.sessions))

-- Where the sessions are keyed, a sweep that returns has kept exactly the sessions that were last
-- seen after the cutoff, has changed no other table, and reports the number of rows that went.
pub sweep_sessions_lem :
    (now : SystemTime) (retention : Duration) (db : Db) (n : ℕ)
    → IsKeyed session_key db.sessions
    → (sweep_sessions now retention db).0 ≡ ok n
    → let swept : Tables = (sweep_sessions now retention db).1.tables in
      let cutoff : ℤ = to_epoch (sweep_cutoff now retention) in
      ((id : Str)
        → Table.find session_key id swept.sessions
          ≡ unless (idle_since cutoff) (Table.find session_key id db.sessions))
      × (length swept.sessions + n ≡ length db.sessions)
      × (swept ≡ record db.tables { sessions = swept.sessions })
sweep_sessions_lem now retention db n keyed h =
    let (count, left) = sweep_sessions_ok now retention db n h in
    rw (left, count)
      (
        λ id. find-delete_where session_key id _ db.sessions keyed,
        length-delete_where _ db.sessions,
        refl,
      )

survives :
    (seen cutoff : ℤ) (params : Str) (o : Option SessionRow)
    → some params ≡ map_option params_of o
    → leℤ seen cutoff ≡ false
    → map_option params_of (unless (idle_since cutoff) (Option.map (touch seen) o)) ≡ some params
survives seen cutoff params none h fresh = cc
survives seen cutoff params (some r) h fresh = rw fresh (sym h)

-- Where the sessions are keyed, a session that was loaded at `seen` survives a sweep whose cutoff is
-- an earlier second.
pub sweep_sessions-load_session :
    (seen now : SystemTime) (retention : Duration) (id params : Str) (db : Db) (n : ℕ)
    → IsKeyed session_key db.sessions
    → (load_session seen id db).0 ≡ ok (some params)
    → (sweep_sessions now retention (load_session seen id db).1).0 ≡ ok n
    → leℤ (to_epoch seen) (to_epoch (sweep_cutoff now retention)) ≡ false
    → handshake id (sweep_sessions now retention (load_session seen id db).1).1.tables ≡ some params
sweep_sessions-load_session seen now retention id params db n keyed loaded swept fresh =
    let (found, touched) = load_session_ok seen id db (some params) loaded in
    let after : Db = (load_session seen id db).1 in
    let keyed' : IsKeyed session_key after.sessions =
      rw touched
        (update-IsKeyed session_key id (touch (to_epoch seen)) db.sessions (λ r. refl) keyed) in
    rw
      (
        (sweep_sessions_ok now retention after n swept).1,
        find-delete_where session_key id (idle_since (to_epoch (sweep_cutoff now retention)))
            after.sessions keyed',
        touched,
        find-update session_key id id (touch (to_epoch seen)) db.sessions (λ r. refl),
        str_eq_refl id,
      )
      (survives (to_epoch seen) _ params (Table.find session_key id db.sessions) found fresh)
