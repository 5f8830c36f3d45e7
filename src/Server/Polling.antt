-- ===== src/Server/Polling.antt =====
-- src/server.rs: a command that is started by one call and polled by another.
mod Examples
use local_mcp.Common.{ℕ, ◌≡◌, refl, ap, ◌∙◌, Option, some, List, ◌++◌, length, take, All}
use local_mcp.Common.Str.{Str, bytes}
use local_mcp.Common.Utf8.{from_utf8_lossy}
use local_mcp.Common.Result.{Result, ok, map_err, ◌>>=◌}
use local_mcp.FileTools.Output.{returned}
use local_mcp.Jobs.{Jobs, JobState, JobError, Uuid, Finished, status_text, snapshot, cell_at, poll}
use local_mcp.Jobs.Events.{Event, run}
use local_mcp.Jobs.Reachable.{Inv}
use local_mcp.Jobs.Lasting.{Spares}
use local_mcp.Jobs.Calls.{start-Found}
use local_mcp.Jobs.Output.{chunks_of, poll-run}
use local_mcp.Server.{
  McpError, CommandArgs, JobArgs, LocalMcp, System, World, Draws, text, job_failed, job_id,
}
use local_mcp.Server.Tools.{Outcome, launch, start_command, poll_job}

-- What `Uuid` promises: the text of an id is read as that id.
pub record IsReadable {D : Type 0} (system : System D) : Type 0 where
  pub parse-show : (id : Uuid) → system.parse_uuid (system.show_uuid id) ≡ some id

module _ {D Addr : Type 0} (system : System D) (server : LocalMcp Addr)
    (law : IsReadable system) where
  job_id_ok : (raw : Str) (id : Uuid) → system.parse_uuid raw ≡ some id → job_id system raw ≡ ok id
  unfolding job_id
  job_id_ok raw id parsed = rw (parsed, job_id) refl

  poll_job_ok :
      (raw : Str) (id : Uuid) (w : World D) (answer : Str × Finished)
      → system.parse_uuid raw ≡ some id
      → poll id w.jobs ≡ ok answer
      → (poll_job system server (record { job_id = raw }) w).0
        ≡ returned (
            text (
              answer.0
              ++ bytes "\n"
              ++ status_text answer.1.status
              ++ bytes "\n\n"
              ++ answer.1.output))
  unfolding poll_job
  poll_job_ok raw id w answer parsed polled = rw (job_id_ok raw id parsed, polled) refl

  -- A command that could be started is answered with the text of its id. Where the ids are read as
  -- they are shown, and whatever happens to it and to other jobs in between, a later call that polls
  -- this text is answered with the command, its status, and the beginning of all that its two pumps
  -- have read, up to the limit: as long as no start draws the id again and none comes the retention or
  -- more after the end of the job. The job table is one that the operations can reach.
  pub poll_job-start_command :
      (draws : Draws) (args : CommandArgs) (w : World D) (pid : Option ℕ) (events : List Event)
      (d : JobState)
      → Inv w.jobs
      → system.spawn server.config.root.path args.command ≡ ok pid
      → let started : World D = (start_command system server draws args w).1 in
        let place : ℕ = length w.jobs.cells in
        cell_at place (run events started.jobs).cells ≡ some d
        → All (Spares draws.id started.jobs.retention d.finished_at.value) events
        → ((start_command system server draws args w).0
            ≡ returned (text (bytes "started job " ++ system.show_uuid draws.id)))
          × ((poll_job system server
                (record { job_id = system.show_uuid draws.id })
                (record started { jobs = run events started.jobs })).0
              ≡ returned (
                  text (
                    args.command
                    ++ bytes "\n"
                    ++ status_text (snapshot d).status
                    ++ bytes "\n\n"
                    ++ from_utf8_lossy (take server.config.max_output (chunks_of place events)))))
  unfolding start_command
  poll_job-start_command draws args w pid events d v spawned end spared =
      let (answered, _) =
        start-Found draws.now system.spawn draws.id server.config.root args.command
          server.config.max_output w.jobs pid v spawned in
      let polled =
        poll-run draws.now system.spawn draws.id server.config.root args.command
          server.config.max_output w.jobs pid events d v spawned end spared in
      (
        rw answered refl,
        poll_job_ok (system.show_uuid draws.id) draws.id _ _ (law.parse-show draws.id) polled,
      )
