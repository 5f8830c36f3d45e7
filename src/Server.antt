-- ===== src/Server.antt =====
-- src/server.rs: the tools and their dispatch. The operating system, the drawing of ids and the
-- clock are arguments. The job table is shared by all servers, so that it stands beside the disk in
-- the state that a call takes and leaves.
pub mod Log
pub mod CallLog
pub mod Tools
pub mod Touches
pub mod Dispatch
pub mod Offers
pub mod JobTable
pub mod Execute
pub mod Polling
pub mod Examples
use local_mcp.Common.{
  ℕ, ◌*◌, Bool, true, false, not, Option, none, some, List, [], ◌∷◌, ◌++◌, any, if◌then◌else◌,
}
use local_mcp.Common.Int.{ℤ}
use local_mcp.Common.Str.{Str, bytes, str_eq}
use local_mcp.Common.Result.{Result, ok, err}
use local_mcp.FilePath.{PathBuf}
use local_mcp.Root.{IoError, Root}
use local_mcp.Config.{Config}
use local_mcp.FileTools.{Os, ToolError, display}
use local_mcp.FileTools.Output.{Call}
use local_mcp.FileTools.Walk.{Walker, Compile}
use local_mcp.Jobs.{Instant, Uuid, Jobs, JobError}
use local_mcp.Jobs.Events.{Event}

-- `McpError::invalid_params`, with what its text is made of, or an error of the SDK.
pub data McpError : Type 0 where
  failed : ToolError → McpError
  job_failed : JobError → McpError
  not_a_job_id : Str → McpError
  refused : Str → McpError

pub data ContentBlock : Type 0 where
  text_block : Str → ContentBlock
  other_block : ContentBlock

pub record CallToolResult : Type 0 where
  pub content : List ContentBlock
  pub is_error : Option Bool

-- `text`, with `CallToolResult::success`
unfoldable pub text : Str → Result McpError CallToolResult
text body = ok (record { content = text_block body ∷ []; is_error = some false })

pub record ReadFileArgs : Type 0 where
  pub path : Str
  pub offset : Option ℕ
  pub limit : Option ℕ

pub record WriteFileArgs : Type 0 where
  pub path : Str
  pub content : Str

pub record EditFileArgs : Type 0 where
  pub path : Str
  pub old_text : Str
  pub new_text : Str

pub record ListDirArgs : Type 0 where
  pub path : Option Str
  pub depth : Option ℕ

pub record SearchArgs : Type 0 where
  pub pattern : Str
  pub path : Option Str
  pub max_results : Option ℕ

pub record CommandArgs : Type 0 where
  pub command : Str

pub record JobArgs : Type 0 where
  pub job_id : Str

-- A tool and its arguments, as the SDK hands them to the handler.
pub data Request : Type 0 where
  to_read_file : ReadFileArgs → Request
  to_write_file : WriteFileArgs → Request
  to_edit_file : EditFileArgs → Request
  to_list_dir : ListDirArgs → Request
  to_search : SearchArgs → Request
  to_execute : CommandArgs → Request
  to_start_command : CommandArgs → Request
  to_poll_job : JobArgs → Request
  to_stop_job : JobArgs → Request

abbrev pub tool_name : Request → Str
tool_name (to_read_file _) = bytes "read_file"
tool_name (to_write_file _) = bytes "write_file"
tool_name (to_edit_file _) = bytes "edit_file"
tool_name (to_list_dir _) = bytes "list_dir"
tool_name (to_search _) = bytes "search"
tool_name (to_execute _) = bytes "execute"
tool_name (to_start_command _) = bytes "start_command"
tool_name (to_poll_job _) = bytes "poll_job"
tool_name (to_stop_job _) = bytes "stop_job"

abbrev pub exec_tools : List Str
exec_tools = bytes "execute" ∷ bytes "start_command" ∷ bytes "poll_job" ∷ bytes "stop_job" ∷ []

-- The routes that the macro collects from the methods that are marked as tools.
abbrev pub all_tools : List Str
all_tools =
    bytes "read_file"
    ∷ bytes "write_file"
    ∷ bytes "edit_file"
    ∷ bytes "list_dir"
    ∷ bytes "search"
    ∷ bytes "execute"
    ∷ bytes "start_command"
    ∷ bytes "poll_job"
    ∷ bytes "stop_job"
    ∷ []

unfoldable pub offers : List Str → Str → Bool
offers routes name = any (λ route. str_eq route name) routes

unfoldable pub remove_route : Str → List Str → List Str
remove_route name [] = []
remove_route name (route ∷ routes) =
    let rest = remove_route name routes in if str_eq route name then rest else route ∷ rest

unfoldable pub remove_routes : List Str → List Str → List Str
remove_routes [] routes = routes
remove_routes (name ∷ names) routes = remove_routes names (remove_route name routes)

pub record LocalMcp (Addr : Type 0) : Type 0 where
  pub config : Config Addr
  pub tool_router : List Str

-- `LocalMcp::new`
unfoldable pub new : {Addr : Type 0} → Config Addr → LocalMcp Addr
new config = record {
  config = config;
  tool_router = if not config.allow_exec then remove_routes exec_tools all_tools else all_tools;
}

-- What the tools call: the disk, the walker, the regular expressions, processes and ids.
pub record System (D : Type 0) : Type 0 where
  pub os : Os D
  pub walk : Walker D
  pub compile : Compile
  pub spawn : PathBuf → Str → Result IoError (Option ℕ)
  pub kill : ℤ → Bool
  -- `Uuid::parse_str` and `Display`
  pub parse_uuid : Str → Option Uuid
  pub show_uuid : Uuid → Str

-- The disk, the job table, and the process groups that were sent SIGKILL.
pub record World (D : Type 0) : Type 0 where
  pub disk : D
  pub jobs : Jobs
  pub signals : List ℤ

-- What a call draws: the time, an id, and what the tasks and other calls do to the job table before
-- it waits for a command, while it waits, and while the last output is drained. What commands write
-- is not part of the model's disk, which holds what the server itself does.
pub record Draws : Type 0 where
  pub now : Instant
  pub id : Uuid
  pub before : List Event
  pub during : List Event
  pub later : List Event

-- `job_id`
unfoldable pub job_id : {D : Type 0} → System D → Str → Result McpError Uuid
job_id system raw = elim (system.parse_uuid raw) [ none ↦ err (not_a_job_id raw) | some id ↦ ok id ]

-- The part of the SDK that `call_tool` and `list_tools` use: `ToolRouter::call` up to the handler,
-- and `list_all`.
pub record Sdk (Raw : Type 0) : Type 0 where
  pub call : List Str → Raw → Result McpError Request
  pub list_all : List Str → List Str

-- The instructions of `get_info`
unfoldable pub instructions : {Addr : Type 0} → Config Addr → Str
instructions config =
    bytes "File tools are confined to "
    ++ display config.root.path
    ++ bytes "; their paths are relative to that root and cannot escape it."
    ++ (if config.allow_exec
        then bytes
            " Long-running commands return a job_id; poll it with poll_job and end it with stop_job."
        else bytes " Shell access is disabled on this instance.")

-- What the build writes into the program of its package.
pub record CargoPackage : Type 0 where
  pub name : Str
  pub version : Str
  pub description : Str
  pub repository : Str

-- The SDK's `Implementation`; what else it has is the SDK's.
pub record Implementation : Type 0 where
  pub name : Str
  pub version : Str
  pub title : Option Str
  pub description : Option Str
  pub website_url : Option Str

pub record ServerInfo : Type 0 where
  pub tools_enabled : Bool
  pub server_info : Implementation
  pub instructions : Str

-- `get_info`
unfoldable pub get_info : {Addr : Type 0} → CargoPackage → LocalMcp Addr → ServerInfo
get_info cargo server = record {
  tools_enabled = true;
  server_info = record {
    name = cargo.name;
    version = cargo.version;
    title = some (bytes "NEVER KNOWS BEST");
    description = some cargo.description;
    website_url = some cargo.repository;
  };
  instructions = instructions server.config;
}

pub data CacheScope : Type 0 where
  public private : CacheScope

-- Milliseconds
abbrev pub tool_list_ttl : ℕ
tool_list_ttl = 60 * 60 * 1000

-- `cache_hints`; the versions and their order are the SDK's.
unfoldable pub cache_hints :
    {Version : Type 0}
    → (Version → Version → Bool)
    → Version
    → Option Version
    → Option (ℕ × CacheScope)
cache_hints at_least v_2026_07_28 none = none
cache_hints at_least v_2026_07_28 (some version) =
    if at_least version v_2026_07_28 then some (tool_list_ttl, public) else none

pub record ListToolsResult : Type 0 where
  pub tools : List Str
  pub ttl_ms : Option ℕ
  pub cache_scope : Option CacheScope

unfoldable pub list_tools :
    {Addr Raw Version : Type 0}
    → Sdk Raw
    → (Version → Version → Bool)
    → Version
    → LocalMcp Addr
    → Option Version
    → ListToolsResult
list_tools sdk at_least v_2026_07_28 server version =
    elim (cache_hints at_least v_2026_07_28 version) [
      | some (ttl_ms, scope) ↦ record {
        tools = sdk.list_all server.tool_router;
        ttl_ms = some ttl_ms;
        cache_scope = some scope;
      }
      | none ↦ record { tools = sdk.list_all server.tool_router; ttl_ms = none; cache_scope = none }
    ]
