-- ===== src/Server/Touches.antt =====
-- src/server.rs and src/fs_ops.rs: what a call can do to the disk.
use local_mcp.Common.{◌≡◌, refl, Option, none, some, [], ◌∷◌}
use local_mcp.Common.Str.{Str, bytes}
use local_mcp.Common.Result.{Result, ok, err, map_err, map_err-eq-ok}
use local_mcp.FilePath.{PathBuf, parent}
use local_mcp.FilePath.Laws.{IsInside}
use local_mcp.Root.{Root, resolve}
use local_mcp.Root.Resolve.{resolve-IsInside}
use local_mcp.FileTools
use local_mcp.FileTools.{
  Os, ToolError, outside, cannot, shown, parent_failed, create_parent, Act, after, write_resolved,
  count_matches, check_unique, replace, edit_resolved,
}
use local_mcp.Jobs.{JobError, Uuid}
use local_mcp.Server.{
  McpError, Request, to_read_file, to_write_file, to_edit_file, to_list_dir, to_search, to_execute,
  to_start_command, to_poll_job, to_stop_job, LocalMcp, System, World, Draws, Sdk,
}
use local_mcp.Server.Tools.{
  launch, await_job, read_file, write_file, edit_file, list_dir, search, execute, start_command,
  poll_job, stop_job, perform, routed, call_tool,
}

-- What happens to a disk `d` in steps: the parent directory of a file inside the root is made, or a
-- file inside the root is written. A step may fail and still change the disk.
pub data Touches {D : Type 0} (os : Os D) (root : Root) (d : D) : D → Type 0 where
  untouched : Touches os root d d
  then_makes :
      (d' : D) (target p : PathBuf)
      → Touches os root d d'
      → IsInside root.path target
      → parent target ≡ some p
      → Touches os root d (os.create_dir_all p d').1
  then_writes :
      (d' : D) (target : PathBuf) (content : Str)
      → Touches os root d d'
      → IsInside root.path target
      → Touches os root d (os.write target content d').1

module _ {D : Type 0} (os : Os D) (root : Root) (d : D) where
  after-Touches :
      {A B : Type 0} (r : Result ToolError A) (f : A → Act D B) (d' : D)
      → Touches os root d d'
      → ((a : A) → r ≡ ok a → Touches os root d (f a d').1)
      → Touches os root d (after r f d').1
  after-Touches (ok a) f d' t k = k a refl
  after-Touches (err e) f d' t k = t

  create_parent-Touches :
      (target : PathBuf) (o : Option PathBuf)
      → IsInside root.path target
      → parent target ≡ o
      → Touches os root d (create_parent os o d).1
  create_parent-Touches target none within h = untouched
  create_parent-Touches target (some p) within h = then_makes d target p untouched within h

  write_resolved-Touches :
      (target : PathBuf) (content : Str)
      → IsInside root.path target
      → Touches os root d (write_resolved os root target content d).1
  unfolding write_resolved
  write_resolved-Touches target content within =
      let (r, d') = create_parent os (parent target) d in
      let made = create_parent-Touches target (parent target) within refl in
      after-Touches (map_err (parent_failed (shown root target)) r) _ d' made (λ _ _.
        let wrote = then_writes d' target content made within in
        after-Touches
          (map_err (cannot (bytes "write") (shown root target)) (os.write target content d').0) _
          (os.write target content d').1 wrote (λ _ _. wrote))

  edit_resolved-Touches :
      (old_text new_text : Str) (target : PathBuf)
      → IsInside root.path target
      → Touches os root d (edit_resolved os root old_text new_text target d).1
  unfolding edit_resolved
  edit_resolved-Touches old_text new_text target within =
      after-Touches
        (map_err (cannot (bytes "read") (shown root target)) (os.read_to_string d target)) _ d
        untouched
        (λ current _.
          after-Touches (check_unique (shown root target) (count_matches old_text 0 current)) _ d
            untouched
            (λ _ _.
              let content = replace old_text new_text 0 current in
              let wrote = then_writes d target content untouched within in
              after-Touches
                (map_err (cannot (bytes "write") (shown root target)) (os.write target content d).0)
                _ (os.write target content d).1 wrote (λ _ _. wrote)))

  write_file-Touches :
      (path content : Str) → Touches os root d (FileTools.write_file os root path content d).1
  unfolding FileTools.write_file
  write_file-Touches path content =
      after-Touches (map_err outside (resolve (os.fs d) root path)) _ d untouched (λ target found.
        write_resolved-Touches target content
          (resolve-IsInside (os.fs d) root path target (map_err-eq-ok _ _ found)))

  edit_file-Touches :
      (path old_text new_text : Str)
      → Touches os root d (FileTools.edit_file os root path old_text new_text d).1
  unfolding FileTools.edit_file
  edit_file-Touches path [] new_text = untouched
  edit_file-Touches path (a ∷ p) new_text =
      after-Touches (map_err outside (resolve (os.fs d) root path)) _ d untouched (λ target found.
        edit_resolved-Touches (a ∷ p) new_text target
          (resolve-IsInside (os.fs d) root path target (map_err-eq-ok _ _ found)))

module _ {D Addr : Type 0} (system : System D) (server : LocalMcp Addr) (draws : Draws) where
  abbrev Kept : D → D → Type 0
  Kept = Touches system.os server.config.root

  await_job-Touches :
      (r : Result JobError Uuid) (w : World D)
      → Kept w.disk (await_job system server draws r w).1.disk
  unfolding await_job
  await_job-Touches (ok id) w = untouched
  await_job-Touches (err e) w = untouched

  perform-Touches :
      (request : Request) (w : World D) → Kept w.disk (perform system server draws request w).1.disk
  unfolding perform read_file write_file edit_file list_dir search execute start_command poll_job
      stop_job
  perform-Touches (to_read_file args) w = untouched
  perform-Touches (to_write_file args) w =
      write_file-Touches system.os server.config.root w.disk args.path args.content
  perform-Touches (to_edit_file args) w =
      edit_file-Touches system.os server.config.root w.disk args.path args.old_text args.new_text
  perform-Touches (to_list_dir args) w = untouched
  perform-Touches (to_search args) w = untouched
  perform-Touches (to_execute args) w = await_job-Touches (launch system server draws args w).0 _
  perform-Touches (to_start_command args) w = untouched
  perform-Touches (to_poll_job args) w = untouched
  perform-Touches (to_stop_job args) w = untouched

-- Whatever a call asks for, and whether it succeeds or fails: the server itself only makes parent
-- directories of files inside the root and writes files inside the root.
pub call_tool-Touches :
    {D Addr Raw : Type 0} (system : System D) (server : LocalMcp Addr) (sdk : Sdk Raw)
    (draws : Draws) (raw : Raw) (w : World D)
    → Touches system.os server.config.root w.disk (call_tool system server sdk draws raw w).1.disk
unfolding call_tool
call_tool-Touches system server sdk draws raw w = by_route (sdk.call server.tool_router raw)
  where
    by_route :
        (r : Result McpError Request)
        → Touches system.os server.config.root w.disk (routed system server draws r w).1.disk
    by_route (err e) = untouched
    by_route (ok request) = perform-Touches system server draws request w
