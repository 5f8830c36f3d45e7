-- ===== src/Startup/Restart.antt =====
-- src/main.rs and src/store.rs: what a restart keeps.
use local_mcp.Common.{
  ◌≡◌, refl, sym, ap, ◌∙◌, subst, ◌⊎◌, inl, inr, Bool, true, Bool-cases, Option, none, some, List,
}
use local_mcp.Common.Str.{Str}
use local_mcp.Common.Int.{ℤ}
use local_mcp.Common.Eq.{str_Eq}
use local_mcp.Common.Result.{ok, map_err, map_err-eq-ok, bind-eq-ok, Result-cases, ok-inj}
use local_mcp.Table
use local_mcp.Table.{IsKeyed}
use local_mcp.Table.Laws.{unless}
use local_mcp.Config.{Config, from_env}
use local_mcp.Store.Clock.{SystemTime, Duration, to_epoch}
use local_mcp.Store.Tables.{Tables, SessionRow, session_key, idle_since}
use local_mcp.Store.Engine.{Db}
use local_mcp.Store.{sweep_sessions, sweep_cutoff}
use local_mcp.Store.Open.{open_store, closed, create_tables-closed, open_store_ok}
use local_mcp.Store.Sessions.{sweep_sessions_lem, sweep_sessions_err}
use local_mcp.Service.{auth_state}
use local_mcp.Service.Tools.{settings}
use local_mcp.Jobs
use local_mcp.Startup.{Host, config_error, store_error, bind_error, App, assemble, start_up}

-- A session is as it was, or it is gone and had not been seen since the cutoff.
abbrev pub KeptOrIdle : ℤ → Option SessionRow → Option SessionRow → Type 0
KeptOrIdle cutoff before after =
    (after ≡ before)
    ⊎ ((after ≡ none) × ((r : SessionRow) × (before ≡ some r) × (idle_since cutoff r ≡ true)))

unless-KeptOrIdle :
    (cutoff : ℤ) (o : Option SessionRow) → KeptOrIdle cutoff o (unless (idle_since cutoff) o)
unless-KeptOrIdle cutoff none = inl refl
unless-KeptOrIdle cutoff (some r) = elim (Bool-cases (idle_since cutoff r)) [
  | inl idle ↦ inr (rw idle refl, (r, refl, idle))
  | inr seen ↦ inl (rw seen refl)
]

-- What a start that succeeds has gone through.
record Started {Addr : Type 0} (host : Host Addr) (now : SystemTime) (app : App Addr) : Type 0 where
  config : Config Addr
  configured : from_env host.fs host.parse_addr host.env ≡ ok config
  db : Db
  opened : open_store host.opening config.state_db ≡ ok db
  swept : app ≡ assemble config now db

start_up_ok :
    {Addr : Type 0} (host : Host Addr) (now : SystemTime) (app : App Addr)
    → start_up host now ≡ ok app
    → Started host now app
unfolding start_up
start_up_ok host now app h =
    let p₁ = bind-eq-ok (map_err config_error (from_env host.fs host.parse_addr host.env)) _ h in
    let p₂ =
      bind-eq-ok (map_err (store_error p₁.0.state_db) (open_store host.opening p₁.0.state_db)) _
        p₁.2 in
    let p₃ = bind-eq-ok (map_err bind_error (host.bind p₁.0.bind)) _ p₂.2 in
    record {
      config = p₁.0;
      configured = map_err-eq-ok _ _ p₁.1;
      db = p₂.0;
      opened = map_err-eq-ok _ _ p₂.1;
      swept = sym (ok-inj p₃.2);
    }

-- The tables of two databases, from before and after a sweep with a cutoff.
record Swept (cutoff : ℤ) (before after : Tables) : Type 0 where
  others : after ≡ record before { sessions = after.sessions }
  sessions :
      (id : Str)
      → KeptOrIdle cutoff
          (Table.find session_key id before.sessions)
          (Table.find session_key id after.sessions)

sweep_sessions-Swept :
    (now : SystemTime) (retention : Duration) (db : Db)
    → IsKeyed session_key db.sessions
    → Swept
        (to_epoch (sweep_cutoff now retention))
        db.tables
        (sweep_sessions now retention db).1.tables
sweep_sessions-Swept now retention db keyed =
    elim (Result-cases (sweep_sessions now retention db).0) [
      | inl (n, done) ↦
          let (kept, _, others) = sweep_sessions_lem now retention db n keyed done in
          record {
            others = others;
            sessions = λ id.
                subst
                  (KeptOrIdle (to_epoch (sweep_cutoff now retention))
                    (Table.find session_key id db.sessions))
                  (sym (kept id)) (unless-KeptOrIdle _ (Table.find session_key id db.sessions));
          }
      | inr (e, failed) ↦
          let same = sweep_sessions_err now retention db e failed in
          record {
            others = rw same refl;
            sessions = λ id. inl (ap (λ (t : Tables). Table.find session_key id t.sessions) same);
          }
    ]

-- What a start keeps of the tables that an earlier run has left.
pub record Restarted {Addr : Type 0} (config : Config Addr) (now : SystemTime) (before : Tables)
    (app : App Addr) : Type 0 where
  pub configured : app.config ≡ config
  pub auth : app.auth ≡ auth_state (settings config)
  pub no_jobs : app.jobs ≡ Jobs.new config.job_retention
  pub others : app.db.tables ≡ record before { sessions = app.db.sessions }
  pub sessions :
      (id : Str)
      → KeptOrIdle
          (to_epoch (sweep_cutoff now config.session_retention))
          (Table.find session_key id before.sessions)
          (Table.find session_key id app.db.sessions)

assemble-Restarted :
    {Addr : Type 0} (config : Config Addr) (now : SystemTime) (before : Tables) (db : Db)
    → db.tables ≡ before
    → IsKeyed session_key before.sessions
    → Restarted config now before (assemble config now db)
unfolding assemble
assemble-Restarted config now before db same keyed =
    let w = sweep_sessions-Swept now config.session_retention db (rw same keyed) in
    record {
      configured = refl;
      auth = refl;
      no_jobs = refl;
      others =
          subst
            (λ (t : Tables).
              (sweep_sessions now config.session_retention db).1.tables
              ≡ record t { sessions = (sweep_sessions now config.session_retention db).1.sessions })
            same w.others;
      sessions = λ id.
          subst
            (λ (t : Tables).
              KeptOrIdle (to_epoch (sweep_cutoff now config.session_retention))
                (Table.find session_key id t.sessions)
                (Table.find session_key id
                  (sweep_sessions now config.session_retention db).1.sessions))
            same (w.sessions id);
    }

-- A start on the file that an earlier run has left, with the sessions keyed: registered clients, codes
-- and tokens are all as they were; a session is as it was, or it is gone and had not been seen since
-- the cutoff of the sweep, also where the sweep fails; and the table of jobs is empty. The guard
-- compares with the token of the settings.
pub start_up-Restarted :
    {Addr : Type 0} (host : Host Addr) (now : SystemTime) (app : App Addr) (config : Config Addr)
    (before : Tables) (faults : List Bool)
    → from_env host.fs host.parse_addr host.env ≡ ok config
    → host.opening.connect config.state_db ≡ ok (record { stored = closed before; faults = faults })
    → IsKeyed session_key before.sessions
    → start_up host now ≡ ok app
    → Restarted config now before app
start_up-Restarted host now app config before faults configured connected keyed h =
    let s = start_up_ok host now app h in
    let same : s.config ≡ config = ok-inj (sym s.configured ∙ configured) in
    let (c, opened, made) = open_store_ok host.opening s.config.state_db s.db s.opened in
    let found : c ≡ record { stored = closed before; faults = faults } =
      ok-inj (sym opened ∙ (rw same connected)) in
    let tables : s.db.tables ≡ before = made ∙ rw found (create_tables-closed before) in
    subst (λ k. Restarted k now before app) same
      (subst (λ a. Restarted s.config now before a) (sym s.swept)
        (assemble-Restarted s.config now before s.db tables keyed))
