-- ===== src/Server/Execute.antt =====
-- src/server.rs: `execute`, and the id that it or `start_command` hands out.
use local_mcp.Common.{ℕ, ◌≡◌, ◌≢◌, ◌⊎◌, ap, ◌∙◌, inl, inr, Option, none, some, ◌++◌, length, All}
use local_mcp.Common.Str.{Str, bytes}
use local_mcp.Common.Utf8.{from_utf8_lossy}
use local_mcp.Common.Result.{Result, ok, map_err, ◌>>=◌}
use local_mcp.FileTools.Output.{returned}
use local_mcp.Jobs.{
  running, status_text, Jobs, JobState, JobError, Uuid, Finished, announced, cell_at, on_cell,
  subscribe,
}
use local_mcp.Jobs.Events.{run}
use local_mcp.Jobs.Reachable.{Inv, run-Inv, start-Inv}
use local_mcp.Jobs.Lasting.{Spares}
use local_mcp.Jobs.Found.{get_of_Found}
use local_mcp.Jobs.Calls.{start-Found, get-run}
use local_mcp.Jobs.Effect.{Stays, Missed}
use local_mcp.Jobs.Wait.{wait_lem}
use local_mcp.Server.{CommandArgs, LocalMcp, System, World, Draws, text, job_failed}
use local_mcp.Server.Tools.{Outcome, launch, await_job, execute, executed}

-- An `execute` whose process could be created, on a job table that the operations can reach, whose
-- id names its job until it waits (no start draws the id again, and none comes the retention or
-- more after the end of the job), where no other wait for the job ends meanwhile. It answers with
-- the final status, which is not `running`, and at least the output that there was, exactly where
-- the task of the job has made its last step when the wait is over, and had not made it unheard
-- before the wait. Otherwise it answers with the id of the job: also where the command has ended,
-- and its task was done, before the wait began.
pub execute_lem :
    {D Addr : Type 0} (system : System D) (server : LocalMcp Addr) (draws : Draws)
    (args : CommandArgs) (w : World D) (pid : Option ℕ) (c d : JobState)
    → Inv w.jobs
    → system.spawn server.config.root.path args.command ≡ ok pid
    → let started : Jobs = (launch system server draws args w).1 in
      let place : ℕ = length w.jobs.cells in
      let begun : Jobs = run draws.before started in
      let outcome : Outcome = (execute system server draws args w).0 in
      cell_at place begun.cells ≡ some c
      → All (Spares draws.id started.retention c.finished_at.value) draws.before
      → cell_at place (run draws.during (on_cell place subscribe begun)).cells ≡ some d
      → All (Stays place) draws.during
      → (¬ (Missed c)
          × (d.waiter ≡ announced)
          × (d.status.value ≢ running)
          × ((more : Str) × (outcome
                ≡ returned (
                    text (
                      status_text d.status.value
                      ++ bytes "\n\n"
                      ++ from_utf8_lossy (d.output.value ++ more))))))
        ⊎ ((Missed c ⊎ (d.waiter ≢ announced))
            × (outcome ≡ returned (text (executed system server draws.id none))))
unfolding execute await_job
execute_lem system server draws args w pid c d v spawned at spared end stays =
    let (answered, found) =
      start-Found draws.now system.spawn draws.id server.config.root args.command
        server.config.max_output w.jobs pid v spawned in
    let jobs : Jobs = (launch system server draws args w).1 in
    let place : ℕ = length w.jobs.cells in
    let started : Inv jobs =
      start-Inv draws.now system.spawn draws.id server.config.root args.command
        server.config.max_output w.jobs v in
    let begun : Jobs = run draws.before jobs in
    let (named, _) =
      get-run draws.before jobs draws.id place _ c started (get_of_Found draws.id jobs _ _ found) at
        spared in
    let awaited =
      ap
        (λ (r : Result JobError Uuid).
          (await_job system server draws r (record w { jobs = jobs })).0)
        answered in
    let answers : Result JobError (Option Finished) → Outcome = λ r.
      returned (map_err job_failed r >>= λ answer. text (executed system server draws.id answer)) in
    elim (wait_lem draws.id begun place c draws.during draws.later
      (run-Inv draws.before jobs started) named d end stays) [
        | inr (why, nothing) ↦ inr (why, awaited ∙ ap answers nothing)
        | inl (heard, last, ended, (more, answer)) ↦
            inl (heard, last, ended, (more, awaited ∙ ap answers answer))
      ]
