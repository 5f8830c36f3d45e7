-- ===== src/Startup/Examples.antt =====
-- The start at a concrete host, and some requests.
use local_mcp.Common.{◌*◌, ◌≡◌, refl, Bool, true, false, none, some, [], ◌∷◌}
use local_mcp.Common.Int.{pos}
use local_mcp.Common.Str.{Str, bytes, str_eq, trim, trim_start, trim_reversed}
use local_mcp.Common.Result.{ok}
use local_mcp.Table.{IsKeyed, delete_where, count_where, find}
use local_mcp.Common.Eq.{str_Eq}
use local_mcp.FilePath.{components, parent, component_eq, starts_with}
use local_mcp.Root
use local_mcp.Config.{
  var, number_or, hosts_of, exec_allowed, keep_alive, checked_token, checked_state_db, from_env,
}
use local_mcp.Config.Examples.{disk, env, parse_addr, settings, started}
use local_mcp.Store.Clock.{to_epoch, checked_sub, second}
use local_mcp.Store.Tables.{Tables, session_key, delete_idle_sessions}
use local_mcp.Store.Engine.{lock, execute}
use local_mcp.Store.{sweep_sessions}
use local_mcp.Store.Open.{closed, create_tables, make_parent, execute_batch, open_store}
use local_mcp.Service.{Settings, offered}
use local_mcp.Jobs
use local_mcp.Startup.{
  Host, App, forgot, assemble, start_up, Route, get, post, mcp_service, token, routes, reaches,
  not_found, method_not_allowed, dispatch,
}
use local_mcp.Startup.Restart.{Restarted, start_up-Restarted}
use local_mcp.Startup.Routes.{Proper, dispatch-routes}

-- An earlier run has left a token and two sessions, of which one is old.
abbrev before : Tables
before = record {
  clients = [];
  codes = [];
  tokens = record { token = bytes "t"; expires_at = pos 9_000_000 } ∷ [];
  sessions =
      record { session_id = bytes "old"; initialize_params = bytes "{}"; last_seen = pos 10 }
      ∷ record {
        session_id = bytes "new";
        initialize_params = bytes "{}";
        last_seen = pos 2_999_000;
      }
      ∷ [];
}

abbrev host : Host Str
host = record {
  fs = disk;
  parse_addr = parse_addr;
  env = env;
  opening = record {
    create_dir_all = λ p. ok tt;
    connect = λ p. ok (record { stored = closed before; faults = [] });
  };
  bind = λ a. ok tt;
}

abbrev app : App Str
app = record {
  config = settings;
  db = record {
    tables = record before {
      sessions =
          record {
            session_id = bytes "new";
            initialize_params = bytes "{}";
            last_seen = pos 2_999_000;
          }
          ∷ [];
    };
    faults = [];
  };
  jobs = record {
    inner = record { value = []; poisoned = false };
    cells = [];
    retention = settings.job_retention;
  };
  swept = forgot 1;
  keep_alive = settings.session_keep_alive;
  allowed_hosts = [];
  auth = record { token = settings.token; oauth = none };
  served = routes none;
}

starts : start_up host (pos (3_000_000 * second)) ≡ ok app
unfolding start_up open_store make_parent execute_batch create_tables assemble sweep_sessions lock
    execute delete_idle_sessions delete_where to_epoch checked_sub Jobs.new from_env var
    checked_token checked_state_db number_or keep_alive hosts_of exec_allowed Root.new components
    starts_with component_eq str_eq trim trim_start trim_reversed parent count_where
starts = refl

keyed : IsKeyed session_key before.sessions
unfolding find str_eq
keyed = (refl, (refl, tt))

start_up-Restarted_example : Restarted settings (pos (3_000_000 * second)) before app
start_up-Restarted_example =
    start_up-Restarted host (pos (3_000_000 * second)) app settings before [] started refl keyed
      starts

abbrev service : Settings
service = record { token = bytes "secret"; public_url = some (bytes "https://mcp") }

-- A router that takes a path only for the route of that path.
abbrev same_path : Route → Str → Bool
same_path route path = str_eq route.path path

to_mcp :
    dispatch same_path post (bytes "/local") (routes (offered service)) ≡ reaches true mcp_service
unfolding dispatch routes str_eq
to_mcp = refl

to_token : dispatch same_path post (bytes "/token") (routes (offered service)) ≡ reaches false token
unfolding dispatch routes str_eq
to_token = refl

no_token : dispatch same_path post (bytes "/token") (routes none) ≡ not_found
unfolding dispatch routes str_eq
no_token = refl

wrong_method :
    dispatch same_path get (bytes "/token") (routes (offered service)) ≡ method_not_allowed
unfolding dispatch routes str_eq
wrong_method = refl

dispatch-routes_example :
    Proper (offered service) (dispatch same_path post (bytes "/token") (routes (offered service)))
dispatch-routes_example = dispatch-routes service same_path post (bytes "/token")
