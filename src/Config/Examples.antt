-- ===== src/Config/Examples.antt =====
-- The settings at concrete environments.
use local_mcp.Common.{◌++◌, ◌≡◌, refl, true, Option, none, some, [], ◌∷◌, if◌then◌else◌}
use local_mcp.Common.Str.{Str, bytes, str_eq, trim, trim_start, trim_reversed}
use local_mcp.Common.Result.{ok, err}
use local_mcp.FilePath.{root_dir, normal, components, component_eq, starts_with}
use local_mcp.Root.{Fs}
use local_mcp.Root
use local_mcp.Config.{
  Config, token_missing, Env, var, command_timeout_invalid, number_or, parse_u64, parse_digits,
  hosts_of, exec_allowed, keep_alive, checked_token, checked_state_db, from_env,
}
use local_mcp.Config.Checked.{IsChecked, from_env-IsChecked}

abbrev pub disk : Fs
disk = record { exists = λ p. true; canonicalize = λ p. ok p }

abbrev pub env : Env
env key = if str_eq key (bytes "LOCAL_MCP_TOKEN") then some (bytes "0123456789abcdef") else none

abbrev no_env : Env
no_env key = none

abbrev pub parse_addr : Str → Option Str
parse_addr s = some s

abbrev pub settings : Config Str
settings = record {
  root = record { path = root_dir ∷ normal (bytes "workspace") ∷ [] };
  token = bytes "0123456789abcdef";
  bind = bytes "0.0.0.0:8080";
  allowed_hosts = [];
  public_url = none;
  state_db =
      root_dir
      ∷ normal (bytes "var")
      ∷ normal (bytes "lib")
      ∷ normal (bytes "local-mcp")
      ∷ normal (bytes "oauth.db")
      ∷ [];
  max_output = 1_048_576;
  command_timeout = 30_000_000_000;
  allow_exec = true;
  job_retention = 3_600_000_000_000;
  session_keep_alive = some 3_600_000_000_000;
  session_retention = 2_592_000_000_000_000;
}

pub started : from_env disk parse_addr env ≡ ok settings
unfolding from_env var checked_token checked_state_db number_or keep_alive hosts_of exec_allowed
    Root.new components starts_with component_eq str_eq trim trim_start trim_reversed
started = refl

from_env-IsChecked_example : IsChecked disk env settings
from_env-IsChecked_example = from_env-IsChecked disk parse_addr env settings started

no_token : from_env disk parse_addr no_env ≡ err token_missing
unfolding from_env checked_token var Root.new components
no_token = refl

too_large :
    number_or 30 command_timeout_invalid (some (bytes "18446744073709551616"))
    ≡ err command_timeout_invalid
unfolding number_or parse_u64 parse_digits
too_large = refl

-- The token is measured in bytes: eight characters of two bytes pass.
abbrev sharp : Str
sharp = 0xC3 ∷ 0x9F ∷ []

abbrev eight : Str
eight = sharp ++ sharp ++ sharp ++ sharp ++ sharp ++ sharp ++ sharp ++ sharp

short_token : checked_token (some eight) ≡ ok eight
unfolding checked_token
short_token = refl

-- A relative path of the state database passes, also where the program starts inside the root.
relative_db :
    checked_state_db settings.root (normal (bytes "oauth.db") ∷ [])
    ≡ ok (normal (bytes "oauth.db") ∷ [])
unfolding checked_state_db starts_with component_eq str_eq
relative_db = refl
