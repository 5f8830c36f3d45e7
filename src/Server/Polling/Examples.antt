-- ===== src/Server/Polling/Examples.antt =====
-- A command that is started and polled.
use local_mcp.Common.{ℕ, ◌≡◌, refl, true, false, Option, none, some, List, [], ◌∷◌, ◌++◌, take}
use local_mcp.Common.Str.{Str, bytes}
use local_mcp.Common.Utf8.{from_utf8_lossy}
use local_mcp.Common.Result.{ok}
use local_mcp.FileTools.Output.{returned}
use local_mcp.Jobs
use local_mcp.Jobs.{
  running, waiting, status_text, JobState, snapshot, cell_at, update_cell, start, reap, retain,
  enter, insert, fresh_state, pump_chunk,
}
use local_mcp.Jobs.Events.{Event, starts, reads, step, run}
use local_mcp.Jobs.Reachable.{run-new}
use local_mcp.Jobs.Lasting.{Spares}
use local_mcp.Jobs.Output.{chunks_of}
use local_mcp.Server
use local_mcp.Server.{CommandArgs, LocalMcp, System, World, text}
use local_mcp.Server.Tools.{start_command, poll_job}
use local_mcp.Server.Examples
use local_mcp.Server.Examples.{config, draws, world}
use local_mcp.Server.Polling.{IsReadable, poll_job-start_command}

abbrev read_id : Str → Option ℕ
read_id (id ∷ []) = some id
read_id _ = none

-- An id is shown as one byte.
abbrev system : System Str
system = record Examples.system { parse_uuid = read_id; show_uuid = λ id. id ∷ [] }

system-IsReadable : IsReadable system
system-IsReadable = record { parse-show = λ id. refl }

abbrev server : LocalMcp Unit
server = Server.new (config true)

-- Between the start of a command and the poll, its pumps read and another command is started.
abbrev starting : CommandArgs
starting = record { command = bytes "make" }

abbrev between : List Event
between =
    reads 0 (bytes "ab")
    ∷ starts 9 (ok none) 11 server.config.root (bytes "ls") 64
    ∷ reads 0 (bytes "c")
    ∷ []

abbrev polled : JobState
polled = record {
  command = bytes "make";
  output = record { value = bytes "abc"; poisoned = false };
  status = record { value = running; poisoned = false };
  done = false;
  receivers = 0;
  finished_at = record { value = none; poisoned = false };
  pid = some 42;
  limit = 64;
  waiter = waiting;
}

abbrev started : World Str
started = (start_command system server draws starting world).1

polled_cell : cell_at 0 (run between started.jobs).cells ≡ some polled
unfolding start_command start reap retain enter insert fresh_state run step update_cell pump_chunk
    cell_at Server.new Jobs.new
polled_cell = refl

other_start :
    Spares 7 started.jobs.retention none (starts 9 (ok none) 11 server.config.root (bytes "ls") 64)
other_start = (λ e. cc, λ t e. cc)

poll_job-start_command_example :
    ((start_command system server draws starting world).0
      ≡ returned (text (bytes "started job " ++ 7 ∷ [])))
    × ((poll_job system server
          (record { job_id = 7 ∷ [] })
          (record started { jobs = run between started.jobs })).0
        ≡ returned (
            text (
              bytes "make"
              ++ bytes "\n"
              ++ status_text (snapshot polled).status
              ++ bytes "\n\n"
              ++ from_utf8_lossy (take 64 (chunks_of 0 between)))))
unfolding Server.new run Jobs.new
poll_job-start_command_example =
    poll_job-start_command system server system-IsReadable draws starting world (some 42) between
      polled (run-new [] 100) refl polled_cell (tt, (other_start, (tt, tt)))
