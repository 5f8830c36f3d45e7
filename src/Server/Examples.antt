-- ===== src/Server/Examples.antt =====
-- A server over a disk with one file and an empty job table.
use local_mcp.Common.{
  ◌≡◌, ◌≢◌, ◌⊎◌, refl, subst, Bool, true, false, Bool-cases, inl, inr, none, some, [], ◌∷◌, ◌++◌,
  if◌then◌else◌,
}
use local_mcp.Common.Int.{pos}
use local_mcp.Common.Str.{Str, bytes, str_eq}
use local_mcp.Common.Decimal.{decimal, decimal_int, digits}
use local_mcp.Common.Utf8.{from_utf8_lossy, lossy, chunk}
use local_mcp.Common.Result.{ok, err, err-ne-ok, ok-inj}
use local_mcp.FilePath.{
  root_dir, normal, components, component_eq, join, parent, strip_base, starts_with,
}
use local_mcp.Root.{normalize, lexical, walk_up, push_all, resolve, relativize}
use local_mcp.Config.{Config}
use local_mcp.FileTools
use local_mcp.FileTools.{shown, write_resolved}
use local_mcp.FileTools.Output.{returned}
use local_mcp.Jobs
use local_mcp.Jobs.{
  Status, running, exited, waiting, announced, status_text, Jobs, on_cell, update_cell, subscribe,
  release, JobState, cell_at, start, reap, retain, enter, insert, fresh_state, wait, get, lookup,
  snapshot, pump_chunk, record_exit, stamp, announce,
}
use local_mcp.Jobs.Events.{
  reads, exits, stamps, announces, on_exit, on_stamp, on_announce, step, run,
}
use local_mcp.Jobs.Effect.{Missed}
use local_mcp.Jobs.Reachable.{run-new}
use local_mcp.Server.{
  McpError, refused, CallToolResult, text_block, text, Request, to_write_file, to_execute,
  CommandArgs, tool_name, exec_tools, all_tools, offers, remove_route, remove_routes, LocalMcp,
  System, World, Draws, Sdk, list_tools, cache_hints,
}
use local_mcp.Server
use local_mcp.Server.Tools.{launch, executed, write_file, await_job, execute, perform, call_tool}
use local_mcp.Server.Log.{nth_char, elide}
use local_mcp.Server.Touches.{Touches, call_tool-Touches}
use local_mcp.Server.Dispatch.{IsRouting, Harmless, call_tool-Harmless}
use local_mcp.Server.CallLog.{Shown, tool_call, call_error, logged_call}
use local_mcp.Server.Log.{arguments}
use local_mcp.Server.Execute.{execute_lem}

abbrev pub system : System Str
system = record {
  os = record {
    fs = λ d. record { exists = λ p. true; canonicalize = λ p. ok p };
    read = λ d p. ok d;
    read_to_string = λ d p. ok d;
    is_dir = λ d p. ok true;
    create_dir_all = λ p d. (ok tt, d);
    write = λ p content d. (ok tt, content);
  };
  walk = λ d p depth. [];
  compile = λ s. err (bytes "none");
  spawn = λ p s. ok (some 42);
  kill = λ group. true;
  parse_uuid = λ s. some 7;
  show_uuid = λ id. bytes "id";
}

abbrev pub config : Bool → Config Unit
config allow_exec = record {
  root = record { path = root_dir ∷ normal (bytes "srv") ∷ [] };
  token = bytes "0123456789abcdef";
  bind = tt;
  allowed_hosts = [];
  public_url = none;
  state_db = [];
  max_output = 64;
  command_timeout = 5_000_000_000;
  allow_exec = allow_exec;
  job_retention = 100;
  session_keep_alive = none;
  session_retention = 100;
}

abbrev pub sdk : Sdk Request
sdk = record {
  call =
      λ routes request. if offers routes (tool_name request) then ok request else err (refused []);
  list_all = λ routes. routes;
}

sdk-IsRouting : IsRouting sdk
sdk-IsRouting routes raw request h = elim (Bool-cases (offers routes (tool_name raw))) [
  | inr missing ↦ err-ne-ok _ _ (rw missing at h)
  | inl there ↦ subst (λ r. offers routes (tool_name r) ≡ true) (ok-inj (rw there at h)) there
]

abbrev pub world : World Str
world = record { disk = bytes "old"; jobs = run [] (Jobs.new 100); signals = [] }

-- The command writes a byte, ends, and its task makes its three steps.
abbrev pub draws : Draws
draws = record {
  now = 5;
  id = 7;
  before = [];
  during = reads 0 (bytes "a") ∷ exits 0 (ok (some (pos 0))) ∷ stamps 0 20 ∷ announces 0 ∷ [];
  later = [];
}

abbrev make : Request
make = to_execute (record { command = bytes "make" })

runs :
    (call_tool system (Server.new (config true)) sdk draws make world).0
    ≡ returned (text (bytes "exited with code 0\n\na"))
unfolding call_tool perform execute await_job Server.new offers str_eq Jobs.new run step start reap
    retain enter insert fresh_state subscribe release wait get lookup cell_at update_cell on_exit
    on_stamp on_announce record_exit stamp announce pump_chunk snapshot from_utf8_lossy lossy chunk
    status_text decimal_int decimal digits
runs = refl

is_refused :
    call_tool system (Server.new (config false)) sdk draws make world
    ≡ (returned (err (refused [])), world)
unfolding call_tool Server.new offers remove_route remove_routes str_eq
is_refused = refl

-- A call that the SDK refuses is logged as one that failed.
abbrev reads_request : Shown Request
reads_request = record { name = tool_name; arguments = λ request. none }

refusal_logged :
    (logged_call {E = Unit {0}} system
      (Server.new (config false))
      sdk
      reads_request
      (λ json. err tt)
      3
      draws
      make
      world).1
    ≡ tool_call (bytes "execute") (bytes "{}") ∷ call_error (bytes "execute") 3 (refused []) ∷ []
unfolding logged_call arguments call_tool Server.new offers remove_route remove_routes str_eq
refusal_logged = refl

call_tool-Harmless_example :
    Harmless system
      (Server.new (config false))
      (λ s. call_tool s (Server.new (config false)) sdk draws make)
      world
call_tool-Harmless_example =
    call_tool-Harmless system sdk (config false) draws make world sdk-IsRouting refl

abbrev pub write : Request
write = to_write_file (record { path = bytes "f"; content = bytes "new" })

call_tool-Touches_example :
    Touches system.os
      (Server.new (config true)).config.root
      (bytes "old")
      (call_tool system (Server.new (config true)) sdk draws write world).1.disk
call_tool-Touches_example =
    call_tool-Touches system (Server.new (config true)) sdk draws write world

writes :
    call_tool system (Server.new (config true)) sdk draws write world
    ≡ (returned (text (bytes "wrote 3 bytes to f")), record world { disk = bytes "new" })
unfolding call_tool perform write_file FileTools.write_file write_resolved shown relativize
    Server.new offers str_eq decimal digits resolve lexical components normalize join parent
    starts_with strip_base component_eq walk_up push_all from_utf8_lossy lossy chunk
writes = refl

abbrev server : LocalMcp Unit
server = Server.new (config true)

abbrev make_args : CommandArgs
make_args = record { command = bytes "make" }

abbrev started : Jobs
started = (launch system server draws make_args world).1

abbrev begun : JobState
begun = record {
  command = bytes "make";
  output = record { value = []; poisoned = false };
  status = record { value = running; poisoned = false };
  done = false;
  receivers = 0;
  finished_at = record { value = none; poisoned = false };
  pid = some 42;
  limit = 64;
  waiter = waiting;
}

abbrev ended : JobState
ended = record begun {
  output = record { value = bytes "a"; poisoned = false };
  status = record { value = exited (pos 0); poisoned = false };
  done = true;
  receivers = 1;
  finished_at = record { value = some 20; poisoned = false };
  waiter = announced;
}

begun_cell : cell_at 0 started.cells ≡ some begun
unfolding Server.new Jobs.new run start reap retain enter insert fresh_state cell_at
begun_cell = refl

ended_cell : cell_at 0 (run draws.during (on_cell 0 subscribe started)).cells ≡ some ended
unfolding Server.new Jobs.new run step start reap retain enter insert fresh_state cell_at
    update_cell on_exit on_stamp on_announce record_exit stamp announce subscribe pump_chunk
ended_cell = refl

execute_lem_example :
    (¬ (Missed begun)
      × (ended.waiter ≡ announced)
      × (ended.status.value ≢ running)
      × ((more : Str) × ((execute system server draws make_args world).0
            ≡ returned (
                text (
                  status_text ended.status.value
                  ++ bytes "\n\n"
                  ++ from_utf8_lossy (ended.output.value ++ more))))))
    ⊎ ((Missed begun ⊎ (ended.waiter ≢ announced))
        × ((execute system server draws make_args world).0
            ≡ returned (text (executed system server draws.id none))))
unfolding Jobs.new run
execute_lem_example =
    execute_lem system server draws make_args world (some 42) begun ended (run-new [] 100) refl
      begun_cell tt ended_cell (tt, (tt, (tt, (tt, tt))))

-- A command that has ended before the wait for it begins is called still running.
abbrev early : Draws
early = record {
  now = 5;
  id = 7;
  before = exits 0 (ok (some (pos 0))) ∷ stamps 0 20 ∷ announces 0 ∷ [];
  during = [];
  later = [];
}

called_running :
    (execute system server early make_args world).0
    ≡ returned (text (bytes "still running after 5s; poll with job_id id"))
unfolding execute await_job Server.new Jobs.new run step start reap retain enter insert fresh_state
    subscribe release wait get lookup cell_at update_cell on_exit on_stamp on_announce record_exit
    stamp announce snapshot decimal digits
called_running = refl

-- The cut is in front of the two bytes of the third character.
elided : elide (97 ∷ 98 ∷ 0xC3 ∷ 0xA9 ∷ []) 2 ≡ bytes "ab... [4 bytes]"
unfolding elide nth_char decimal digits
elided = refl
