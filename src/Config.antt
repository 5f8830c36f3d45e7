-- ===== src/Config.antt =====
-- src/config.rs: the settings, read from the environment at startup. The environment is a function
-- from names to readable values, and the parser of socket addresses is a parameter.
pub mod Numbers
pub mod Checked
pub mod Examples
use local_mcp.Common.{
  ℕ, ◌+◌, ◌*◌, ◌-◌, ◌^◌, Bool, true, false, not, ◌&&◌, ◌||◌, Option, none, some, List, [], ◌∷◌,
  ◌==◌, leb, ltb, length, map, reverse, if◌then◌else◌,
}
use local_mcp.Common.Str.{Str, bytes, str_eq, is_empty, trim}
use local_mcp.Common.Result.{Result, ok, err, ok_or, map_err, ◌>>=◌}
use local_mcp.FilePath.{PathBuf, components, starts_with, on_first}
use local_mcp.Root.{Fs, Root, RootError}
use local_mcp.Root
use local_mcp.Store.Clock.{Duration, from_secs}

pub record Config (Addr : Type 0) : Type 0 where
  pub root : Root
  pub token : Str
  pub bind : Addr
  pub allowed_hosts : List Str
  pub public_url : Option Str
  pub state_db : PathBuf
  pub max_output : ℕ
  pub command_timeout : Duration
  pub allow_exec : Bool
  pub job_retention : Duration
  pub session_keep_alive : Option Duration
  pub session_retention : Duration

-- Why the program refuses to start.
pub data ConfigError : Type 0 where
  root_unusable : RootError → ConfigError
  token_missing token_short bind_invalid : ConfigError
  state_db_inside_root : PathBuf → ConfigError
  max_output_invalid command_timeout_invalid job_retention_invalid : ConfigError
  session_retention_invalid session_keep_alive_invalid : ConfigError

-- `std::env::var(key).ok()`
abbrev pub Env : Type 0
Env = Str → Option Str

abbrev pub unless_blank : Option Str → Option Str
unless_blank none = none
unless_blank (some v) = if is_empty (trim v) then none else some v

unfoldable pub var : Env → Str → Option Str
var env key = unless_blank (env key)

abbrev pub is_digit : ℕ → Bool
is_digit b = leb 48 b && leb b 57

abbrev pub next_digit : ℕ → ℕ → ℕ
next_digit acc b = acc * 10 + (b - 48)

-- The digits of a `u64`, with `checked_mul` and `checked_add` at each.
unfoldable pub parse_digits : ℕ → Str → Option ℕ
parse_digits acc [] = some acc
parse_digits acc (b ∷ s) =
    let rest = parse_digits (next_digit acc b) s in
    if is_digit b && ltb (next_digit acc b) (2 ^ 64) then rest else none

-- `v.parse::<u64>()`, and `usize` on a 64-bit machine: a leading `+` is allowed.
unfoldable pub parse_u64 : Str → Option ℕ
parse_u64 [] = none
parse_u64 (b ∷ []) = parse_digits 0 (b ∷ [])
parse_u64 (b ∷ c ∷ s) = if b == b'+' then parse_digits 0 (c ∷ s) else parse_digits 0 (b ∷ c ∷ s)

-- `.map(|v| v.parse()).transpose().context(...)?.unwrap_or(default)`
unfoldable pub number_or : ℕ → ConfigError → Option Str → Result ConfigError ℕ
number_or default e none = ok default
number_or default e (some v) = ok_or e (parse_u64 v)

-- `v.split(',')`
unfoldable pub split_comma : Str → List Str
split_comma [] = [] ∷ []
split_comma (b ∷ s) = let rest = split_comma s in if b == b',' then [] ∷ rest else on_first b rest

-- `.filter(|s| !s.is_empty())`
unfoldable pub non_empty : List Str → List Str
non_empty [] = []
non_empty (s ∷ hosts) = let rest = non_empty hosts in if is_empty s then rest else s ∷ rest

unfoldable pub hosts_of : Option Str → List Str
hosts_of none = []
hosts_of (some v) = non_empty (map trim (split_comma v))

abbrev pub drop_slashes : Str → Str
drop_slashes [] = []
drop_slashes (b ∷ s) = let rest = drop_slashes s in if b == b'/' then rest else b ∷ s

-- `u.trim_end_matches('/')`
unfoldable pub trim_end_slashes : Str → Str
trim_end_slashes u = reverse (drop_slashes (reverse u))

abbrev pub map_url : Option Str → Option Str
map_url none = none
map_url (some u) = some (trim_end_slashes u)

abbrev pub or_default : Str → Option Str → Str
or_default default none = default
or_default default (some v) = v

-- `!matches!(..., Some("false" | "0" | "no"))`
unfoldable pub exec_allowed : Option Str → Bool
exec_allowed none = true
exec_allowed (some v) =
    not (str_eq v (bytes "false") || str_eq v (bytes "0") || str_eq v (bytes "no"))

unfoldable pub keep_alive : Option Str → Result ConfigError (Option Duration)
keep_alive none = ok (some (from_secs 3600))
keep_alive (some v) =
    if str_eq v (bytes "off") || str_eq v (bytes "none") || str_eq v (bytes "0")
    then ok none
    else (do n ← ok_or session_keep_alive_invalid (parse_u64 v); ok (some (from_secs n)))

-- The token, at least 16 bytes of it.
unfoldable pub checked_token : Option Str → Result ConfigError Str
checked_token none = err token_missing
checked_token (some token) = if ltb (length token) 16 then err token_short else ok token

-- `starts_with` on the paths as they are written.
unfoldable pub checked_state_db : Root → PathBuf → Result ConfigError PathBuf
checked_state_db root state_db =
    if starts_with state_db root.path then err (state_db_inside_root state_db) else ok state_db

unfoldable pub from_env :
    {Addr : Type 0} → Fs → (Str → Option Addr) → Env → Result ConfigError (Config Addr)
from_env fs parse_addr env = do
  root ← map_err root_unusable (
      Root.new fs (components (or_default (bytes "/workspace") (var env (bytes "LOCAL_MCP_ROOT")))))
  token ← checked_token (var env (bytes "LOCAL_MCP_TOKEN"))
  bind ←
      ok_or bind_invalid
        (parse_addr (or_default (bytes "0.0.0.0:8080") (var env (bytes "LOCAL_MCP_BIND"))))
  state_db ← checked_state_db root (
      components
        (or_default (bytes "/var/lib/local-mcp/oauth.db") (var env (bytes "LOCAL_MCP_STATE_DB"))))
  max_output ← number_or 1_048_576 max_output_invalid (var env (bytes "LOCAL_MCP_MAX_OUTPUT"))
  command_timeout ←
      number_or 30 command_timeout_invalid (var env (bytes "LOCAL_MCP_COMMAND_TIMEOUT"))
  job_retention ← number_or 3600 job_retention_invalid (var env (bytes "LOCAL_MCP_JOB_RETENTION"))
  session_retention ←
      number_or (60 * 60 * 24 * 30) session_retention_invalid
        (var env (bytes "LOCAL_MCP_SESSION_RETENTION"))
  session_keep_alive ← keep_alive (var env (bytes "LOCAL_MCP_SESSION_KEEP_ALIVE"))
  ok (record {
    root = root;
    token = token;
    bind = bind;
    allowed_hosts = hosts_of (var env (bytes "LOCAL_MCP_ALLOWED_HOSTS"));
    public_url = map_url (var env (bytes "LOCAL_MCP_PUBLIC_URL"));
    state_db = state_db;
    max_output = max_output;
    command_timeout = from_secs command_timeout;
    allow_exec = exec_allowed (var env (bytes "LOCAL_MCP_ALLOW_EXEC"));
    job_retention = from_secs job_retention;
    session_keep_alive = session_keep_alive;
    session_retention = from_secs session_retention;
  })
