-- ===== src/Server/Tools.antt =====
-- src/server.rs: the handlers of the tools, and `call_tool` without its lines in the log.
use local_mcp.Common.{◌/◌, Option, none, some, List, [], ◌∷◌, ◌++◌}
use local_mcp.Common.Int.{ℤ}
use local_mcp.Common.Str.{Str, bytes}
use local_mcp.Common.Decimal.{decimal}
use local_mcp.Common.Result.{Result, ok, err, map_err, ◌>>=◌}
use local_mcp.Store.Clock.{second}
use local_mcp.FileTools
use local_mcp.FileTools.{ToolError}
use local_mcp.FileTools.Output.{Call, returned, panicked}
use local_mcp.FileTools.Read
use local_mcp.FileTools.Walk
use local_mcp.Jobs.{
  Uuid, Jobs, JobError, Finished, status_text, start, wait, poll, stop_target, stop,
}
use local_mcp.Jobs.Events.{run}
use local_mcp.Server.{
  McpError, failed, job_failed, CallToolResult, text, ReadFileArgs, WriteFileArgs, EditFileArgs,
  ListDirArgs, SearchArgs, CommandArgs, JobArgs, Request, to_read_file, to_write_file, to_edit_file,
  to_list_dir, to_search, to_execute, to_start_command, to_poll_job, to_stop_job, LocalMcp, System,
  World, Draws, Sdk, job_id,
}

-- What a call of a tool comes to, and the state it leaves.
abbrev pub Outcome : Type 0
Outcome = Call (Result McpError CallToolResult)

-- `.map_err(failed).and_then(text)`
abbrev pub answered : Result ToolError Str → Outcome
answered r = returned (map_err failed r >>= text)

-- The same behind a call that may panic.
abbrev pub answered_call : Result ToolError (Call Str) → Outcome
answered_call (err e) = returned (err (failed e))
answered_call (ok panicked) = panicked
answered_call (ok (returned s)) = returned (text s)

module _ {D Addr : Type 0} (system : System D) (server : LocalMcp Addr) where
  unfoldable pub read_file : ReadFileArgs → World D → Outcome × World D
  read_file args w = (
    answered_call (
        Read.read_file system.os server.config.root args.path args.offset args.limit
          server.config.max_output w.disk),
    w,
  )

  unfoldable pub write_file : WriteFileArgs → World D → Outcome × World D
  write_file args w =
      let (r, disk) =
        FileTools.write_file system.os server.config.root args.path args.content w.disk in
      (answered r, record w { disk = disk })

  unfoldable pub edit_file : EditFileArgs → World D → Outcome × World D
  edit_file args w =
      let (r, disk) =
        FileTools.edit_file system.os server.config.root args.path args.old_text args.new_text
          w.disk in
      (answered r, record w { disk = disk })

  unfoldable pub list_dir : ListDirArgs → World D → Outcome × World D
  list_dir args w = (
    answered_call (
        Walk.list_dir system.os system.walk server.config.root args.path args.depth
          server.config.max_output w.disk),
    w,
  )

  unfoldable pub search : SearchArgs → World D → Outcome × World D
  search args w = (
    answered_call (
        Walk.search system.os system.walk system.compile server.config.root args.pattern args.path
          args.max_results server.config.max_output w.disk),
    w,
  )

  -- The two answers of `execute`
  abbrev pub executed : Uuid → Option Finished → Str
  executed id (some finished) = status_text finished.status ++ bytes "\n\n" ++ finished.output
  executed id none =
      bytes "still running after "
      ++ decimal (server.config.command_timeout / second)
      ++ bytes "s; poll with job_id "
      ++ system.show_uuid id

  abbrev pub launch : Draws → CommandArgs → World D → Result JobError Uuid × Jobs
  launch draws args w =
      start draws.now system.spawn draws.id server.config.root args.command server.config.max_output
        w.jobs

  -- `execute` behind `start`
  unfoldable pub await_job : Draws → Result JobError Uuid → World D → Outcome × World D
  await_job draws (err e) w = (returned (err (job_failed e)), w)
  await_job draws (ok id) w =
      let (waited, jobs) = wait id (run draws.during) (run draws.later) (run draws.before w.jobs) in
      (
        returned (map_err job_failed waited >>= λ answer. text (executed id answer)),
        record w { jobs = jobs },
      )

  unfoldable pub execute : Draws → CommandArgs → World D → Outcome × World D
  execute draws args w =
      let (r, jobs) = launch draws args w in await_job draws r (record w { jobs = jobs })

  unfoldable pub start_command : Draws → CommandArgs → World D → Outcome × World D
  start_command draws args w =
      let (r, jobs) = launch draws args w in
      (
        returned
            (map_err job_failed r >>= λ id. text (bytes "started job " ++ system.show_uuid id)),
        record w { jobs = jobs },
      )

  unfoldable pub poll_job : JobArgs → World D → Outcome × World D
  poll_job args w = (
    returned (do
      id ← job_id system args.job_id
      polled ← map_err job_failed (poll id w.jobs)
      text (
          polled.0
          ++ bytes "\n"
          ++ status_text polled.1.status
          ++ bytes "\n\n"
          ++ polled.1.output)),
    w,
  )

  abbrev pub signalled_by : Result McpError ℤ → List ℤ
  signalled_by (ok group) = group ∷ []
  signalled_by (err e) = []

  unfoldable pub stop_job : JobArgs → World D → Outcome × World D
  stop_job args w = (
    returned (do
      id ← job_id system args.job_id
      stopped ← map_err job_failed (stop system.kill id w.jobs)
      text (bytes "stopped job " ++ system.show_uuid stopped)),
    record w {
      signals =
          w.signals
          ++ signalled_by
              (do id ← job_id system args.job_id; map_err job_failed (stop_target id w.jobs));
    },
  )

  unfoldable pub perform : Draws → Request → World D → Outcome × World D
  perform draws (to_read_file args) w = read_file args w
  perform draws (to_write_file args) w = write_file args w
  perform draws (to_edit_file args) w = edit_file args w
  perform draws (to_list_dir args) w = list_dir args w
  perform draws (to_search args) w = search args w
  perform draws (to_execute args) w = execute draws args w
  perform draws (to_start_command args) w = start_command draws args w
  perform draws (to_poll_job args) w = poll_job args w
  perform draws (to_stop_job args) w = stop_job args w

  abbrev pub routed : Draws → Result McpError Request → World D → Outcome × World D
  routed draws (err e) w = (returned (err e), w)
  routed draws (ok request) w = perform draws request w

  unfoldable pub call_tool : {Raw : Type 0} → Sdk Raw → Draws → Raw → World D → Outcome × World D
  call_tool sdk draws raw w = routed draws (sdk.call server.tool_router raw) w
