-- ===== src/Server/Dispatch.antt =====
-- src/server.rs: what a call can do where `allow_exec` is off.
use local_mcp.Common.{ℕ, ◌≡◌, refl, Bool, true, false, inl, inr, Option, List}
use local_mcp.Common.Int.{ℤ}
use local_mcp.Common.Str.{Str, str_eq}
use local_mcp.Common.Result.{Result, ok, Result-cases}
use local_mcp.FilePath.{PathBuf}
use local_mcp.Root.{IoError}
use local_mcp.Config.{Config}
use local_mcp.Server.{
  Request, to_read_file, to_write_file, to_edit_file, to_list_dir, to_search, to_execute,
  to_start_command, to_poll_job, to_stop_job, tool_name, offers, remove_route, remove_routes,
  LocalMcp, new, System, World, Draws, Sdk,
}
use local_mcp.Server.Tools.{
  Outcome, read_file, write_file, edit_file, list_dir, search, perform, call_tool,
}

-- The SDK dispatches only to routes that are there.
abbrev pub IsRouting : {Raw : Type 0} → Sdk Raw → Type 0
IsRouting {Raw = Raw} sdk =
    (routes : List Str) (raw : Raw) (request : Request)
    → sdk.call routes raw ≡ ok request
    → offers routes (tool_name request) ≡ true

-- What a tool that runs no command leaves, whatever `spawn` and `kill` would do.
pub record Harmless {D Addr : Type 0} (system : System D) (server : LocalMcp Addr)
    (act : System D → World D → Outcome × World D) (w : World D) : Type 0 where
  pub same_jobs : (act system w).1.jobs ≡ w.jobs
  pub same_signals : (act system w).1.signals ≡ w.signals
  pub unasked :
      (spawn : PathBuf → Str → Result IoError (Option ℕ)) (kill : ℤ → Bool)
      → act (record system { spawn = spawn; kill = kill }) w ≡ act system w

module _ {D Addr : Type 0} (system : System D) (config : Config Addr) (draws : Draws) where
  abbrev performing : Request → System D → World D → Outcome × World D
  performing request s w = perform s (new config) draws request w

  perform-Harmless :
      (request : Request) (w : World D)
      → config.allow_exec ≡ false
      → offers (new config).tool_router (tool_name request) ≡ true
      → Harmless system (new config) (performing request) w
  unfolding perform new offers remove_route remove_routes str_eq read_file write_file edit_file
      list_dir search
  perform-Harmless (to_read_file args) w off h = record {
    same_jobs = refl;
    same_signals = refl;
    unasked = λ spawn kill. refl;
  }
  perform-Harmless (to_write_file args) w off h = record {
    same_jobs = refl;
    same_signals = refl;
    unasked = λ spawn kill. refl;
  }
  perform-Harmless (to_edit_file args) w off h = record {
    same_jobs = refl;
    same_signals = refl;
    unasked = λ spawn kill. refl;
  }
  perform-Harmless (to_list_dir args) w off h = record {
    same_jobs = refl;
    same_signals = refl;
    unasked = λ spawn kill. refl;
  }
  perform-Harmless (to_search args) w off h = record {
    same_jobs = refl;
    same_signals = refl;
    unasked = λ spawn kill. refl;
  }
  perform-Harmless (to_execute args) w off h = let clash : false ≡ true = rw off at h in cc
  perform-Harmless (to_start_command args) w off h = let clash : false ≡ true = rw off at h in cc
  perform-Harmless (to_poll_job args) w off h = let clash : false ≡ true = rw off at h in cc
  perform-Harmless (to_stop_job args) w off h = let clash : false ≡ true = rw off at h in cc

-- With `allow_exec` off, no call starts a command or signals a process: it does not touch the job
-- table, and it goes the same way whatever `spawn` and `kill` would answer.
pub call_tool-Harmless :
    {D Addr Raw : Type 0} (system : System D) (sdk : Sdk Raw) (config : Config Addr) (draws : Draws)
    (raw : Raw) (w : World D)
    → IsRouting sdk
    → config.allow_exec ≡ false
    → Harmless system (new config) (λ s. call_tool s (new config) sdk draws raw) w
unfolding call_tool
call_tool-Harmless system sdk config draws raw w routing off =
    elim (Result-cases (sdk.call (new config).tool_router raw)) [
      | inr (e, refused) ↦ record {
        same_jobs = rw refused refl;
        same_signals = rw refused refl;
        unasked = λ spawn kill. rw refused refl;
      }
      | inl (request, found) ↦
          let p =
            perform-Harmless system config draws request w off
              (routing (new config).tool_router raw request found) in
          record {
            same_jobs = rw found p.same_jobs;
            same_signals = rw found p.same_signals;
            unasked = λ spawn kill. rw found (p.unasked spawn kill);
          }
    ]
