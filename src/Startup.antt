-- ===== src/Startup.antt =====
-- src/main.rs: the start of the program, and the routes that it serves.
pub mod Restart
pub mod Routes
mod Examples
use local_mcp.Common.{ℕ, zero, suc, Bool, true, false, Option, none, some, List, [], ◌∷◌}
use local_mcp.Common.Str.{Str, bytes}
use local_mcp.Common.Result.{Result, ok, err, map_err, ◌>>=◌}
use local_mcp.FilePath.{PathBuf}
use local_mcp.Root.{Fs, IoError}
use local_mcp.Config.{Config, ConfigError, Env, from_env}
use local_mcp.Store.Clock.{SystemTime, Duration}
use local_mcp.Store.Tables.{DbError}
use local_mcp.Store.Engine.{Db}
use local_mcp.Store.{sweep_sessions}
use local_mcp.Store.Open.{Opening, OpenError, open_store}
use local_mcp.OAuth.{OAuth}
use local_mcp.OAuth.Metadata.{mount_path}
use local_mcp.Auth.{AuthState}
use local_mcp.Service.{offered, auth_state}
use local_mcp.Service.Tools.{settings}
use local_mcp.Server
use local_mcp.Server.{LocalMcp}
use local_mcp.Jobs
use local_mcp.Jobs.{Jobs}

-- What the start asks of the system around it.
pub record Host (Addr : Type 0) : Type 0 where
  pub fs : Fs
  pub parse_addr : Str → Option Addr
  pub env : Env
  pub opening : Opening
  -- `TcpListener::bind`
  pub bind : Addr → Result IoError (Unit {0})

pub data StartError : Type 0 where
  config_error : ConfigError → StartError
  store_error : PathBuf → OpenError → StartError
  bind_error : IoError → StartError

-- What is logged of the sweep.
pub data SweepNote : Type 0 where
  quiet : SweepNote
  forgot : ℕ → SweepNote
  cannot_sweep : DbError → SweepNote

abbrev pub sweep_note : Result DbError ℕ → SweepNote
sweep_note (ok zero) = quiet
sweep_note (ok (suc n)) = forgot (suc n)
sweep_note (err e) = cannot_sweep e

pub data Method : Type 0 where
  get head post : Method
  other_method : Str → Method

pub data Endpoint : Type 0 where
  mcp_service healthz : Endpoint
  protected_resource authorization_server register authorize_form authorize_submit token : Endpoint

pub data Handlers : Type 0 where
  -- `nest_service`, for every method
  service : Endpoint → Handlers
  by_method : List (Method × Endpoint) → Handlers

pub record Route : Type 0 where
  pub path : Str
  pub handlers : Handlers
  -- `route_layer` with `auth::guard`
  pub guarded : Bool

abbrev on : Str → List (Method × Endpoint) → Route
on path handlers = record { path = path; handlers = by_method handlers; guarded = false }

abbrev pub oauth_routes : Option OAuth → List Route
oauth_routes none = []
oauth_routes (some oauth) =
    on (bytes "/.well-known/oauth-protected-resource") ((get, protected_resource) ∷ [])
    ∷ on (bytes "/.well-known/oauth-authorization-server") ((get, authorization_server) ∷ [])
    ∷ on (bytes "/register") ((post, register) ∷ [])
    ∷ on (bytes "/authorize") ((get, authorize_form) ∷ (post, authorize_submit) ∷ [])
    ∷ on (bytes "/token") ((post, token) ∷ [])
    ∷ []

unfoldable pub routes : Option OAuth → List Route
routes oauth =
    record { path = mount_path; handlers = service mcp_service; guarded = true }
    ∷ on (bytes "/healthz") ((get, healthz) ∷ [])
    ∷ oauth_routes oauth

-- What the requests are served from.
pub record App (Addr : Type 0) : Type 0 where
  pub config : Config Addr
  pub db : Db
  pub jobs : Jobs
  pub swept : SweepNote
  -- settings of the SDK's session manager and of its transport
  pub keep_alive : Option Duration
  pub allowed_hosts : List Str
  pub auth : AuthState
  pub served : List Route

-- `main` between the opening of the database and the listener. That the sweep fails does not stop it.
unfoldable pub assemble : {Addr : Type 0} → Config Addr → SystemTime → Db → App Addr
assemble config now db =
    let (r, db') = sweep_sessions now config.session_retention db in
    record {
      config = config;
      db = db';
      jobs = Jobs.new config.job_retention;
      swept = sweep_note r;
      keep_alive = config.session_keep_alive;
      allowed_hosts = config.allowed_hosts;
      auth = auth_state (settings config);
      served = routes (offered (settings config));
    }

-- The server that the transport makes for a session.
abbrev pub session_server : {Addr : Type 0} → App Addr → LocalMcp Addr
session_server app = Server.new app.config

-- `main`, up to the point where it serves.
unfoldable pub start_up : {Addr : Type 0} → Host Addr → SystemTime → Result StartError (App Addr)
start_up host now = do
  config ← map_err config_error (from_env host.fs host.parse_addr host.env)
  db ← map_err (store_error config.state_db) (open_store host.opening config.state_db)
  let app = assemble config now db
  _ ← map_err bind_error (host.bind config.bind)
  ok app

-- What a request comes to; `reaches` says whether the guard is in front.
pub data Dispatched : Type 0 where
  not_found method_not_allowed : Dispatched
  reaches : Bool → Endpoint → Dispatched

-- The method of a request, and the one that a handler stands for: `get` serves HEAD too.
abbrev pub same_method : Method → Method → Bool
same_method get get = true
same_method head get = true
same_method post post = true
same_method _ _ = false

abbrev pub choose : Bool → Method → List (Method × Endpoint) → Dispatched
choose guarded m [] = method_not_allowed
choose guarded m ((n, e) ∷ handlers) = elim (same_method m n) [
  | true ↦ reaches guarded e
  | false ↦ choose guarded m handlers
]

abbrev pub handle : Method → Route → Dispatched
handle m route = elim route.handlers [
  | service e ↦ reaches route.guarded e
  | by_method handlers ↦ choose route.guarded m handlers
]

-- Which route a path belongs to is the router's to say.
unfoldable pub dispatch : (Route → Str → Bool) → Method → Str → List Route → Dispatched
dispatch matches m path [] = not_found
dispatch matches m path (route ∷ rest) = elim (matches route path) [
  | true ↦ handle m route
  | false ↦ dispatch matches m path rest
]
