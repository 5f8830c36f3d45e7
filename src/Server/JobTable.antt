-- ===== src/Server/JobTable.antt =====
-- src/server.rs: what a call does to the job table.
use local_mcp.Common.Result.{Result, ok, err}
use local_mcp.Jobs.{JobError, Uuid}
use local_mcp.Jobs.Events.{run}
use local_mcp.Jobs.Reachable.{Inv, run-Inv, start-Inv}
use local_mcp.Jobs.Wait.{wait-Inv}
use local_mcp.Server.{
  McpError, CommandArgs, Request, to_read_file, to_write_file, to_edit_file, to_list_dir, to_search,
  to_execute, to_start_command, to_poll_job, to_stop_job, LocalMcp, System, World, Draws, Sdk,
}
use local_mcp.Server.Tools.{
  launch, await_job, read_file, write_file, edit_file, list_dir, search, execute, start_command,
  poll_job, stop_job, perform, routed, call_tool,
}

-- A call of a tool keeps the job table well formed.
await_job-Inv :
    {D Addr : Type 0} (system : System D) (server : LocalMcp Addr) (draws : Draws)
    (r : Result JobError Uuid) (w : World D)
    → Inv w.jobs
    → Inv (await_job system server draws r w).1.jobs
unfolding await_job
await_job-Inv system server draws (err e) w v = v
await_job-Inv system server draws (ok id) w v =
    wait-Inv id draws.during draws.later (run draws.before w.jobs) (run-Inv draws.before w.jobs v)

start_command-Inv :
    {D Addr : Type 0} (system : System D) (server : LocalMcp Addr) (draws : Draws)
    (args : CommandArgs) (w : World D)
    → Inv w.jobs
    → Inv (launch system server draws args w).1
start_command-Inv system server draws args w v =
    start-Inv draws.now system.spawn draws.id server.config.root args.command
      server.config.max_output w.jobs v

perform-Inv :
    {D Addr : Type 0} (system : System D) (server : LocalMcp Addr) (draws : Draws)
    (request : Request) (w : World D)
    → Inv w.jobs
    → Inv (perform system server draws request w).1.jobs
unfolding perform read_file write_file edit_file list_dir search execute start_command poll_job
    stop_job
perform-Inv system server draws (to_read_file args) w v = v
perform-Inv system server draws (to_write_file args) w v = v
perform-Inv system server draws (to_edit_file args) w v = v
perform-Inv system server draws (to_list_dir args) w v = v
perform-Inv system server draws (to_search args) w v = v
perform-Inv system server draws (to_execute args) w v =
    await_job-Inv system server draws (launch system server draws args w).0 _
      (start_command-Inv system server draws args w v)
perform-Inv system server draws (to_start_command args) w v =
    start_command-Inv system server draws args w v
perform-Inv system server draws (to_poll_job args) w v = v
perform-Inv system server draws (to_stop_job args) w v = v

-- Every call, whatever it asks for, keeps the job table well formed.
pub call_tool-Inv :
    {D Addr Raw : Type 0} (system : System D) (server : LocalMcp Addr) (sdk : Sdk Raw)
    (draws : Draws) (raw : Raw) (w : World D)
    → Inv w.jobs
    → Inv (call_tool system server sdk draws raw w).1.jobs
unfolding call_tool
call_tool-Inv system server sdk draws raw w v = by_route (sdk.call server.tool_router raw)
  where
    by_route : (r : Result McpError Request) → Inv (routed system server draws r w).1.jobs
    by_route (err e) = v
    by_route (ok request) = perform-Inv system server draws request w v
