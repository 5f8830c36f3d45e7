-- ===== src/Jobs.antt =====
-- src/exec_ops.rs: the table of commands. Jobs are `Arc`s that the table and the tasks of a command
-- share: `cells` are all that were made, and the table names them by their place. Processes, the
-- drawn ids and the clock are the environment's: arguments of the methods and of the tasks' steps.
mod State
pub mod Events
pub mod Invariant
pub mod Reachable
pub mod Progress
pub mod Lasting
pub mod Found
pub mod Calls
pub mod Output
pub mod Stop
pub mod Effect
pub mod Wait
mod Examples
unfoldable pub use State.*
use local_mcp.Common.{
  ℕ, zero, suc, ◌+◌, ◌-◌, ◌/◌, Bool, true, false, Option, none, some, List, [], ◌∷◌, ◌++◌, ◌==◌,
  ltb, length, if◌then◌else◌,
}
use local_mcp.Common.Int.{ℤ, pos, negsuc}
use local_mcp.Common.Str.{Str}
use local_mcp.Common.Utf8.{from_utf8_lossy}
use local_mcp.Common.Result.{Result, ok, err, ok_or, ◌>>=◌}
use local_mcp.FilePath.{PathBuf}
use local_mcp.Root.{IoError, Root}
use local_mcp.Store.Clock.{Duration, second}

-- `Jobs::new`
unfoldable pub new : Duration → Jobs
new retention = record {
  inner = record { value = []; poisoned = false };
  cells = [];
  retention = retention;
}

unfoldable pub cell_at : ℕ → List JobState → Option JobState
cell_at i [] = none
cell_at zero (c ∷ cells) = some c
cell_at (suc i) (c ∷ cells) = cell_at i cells

abbrev pub finished_at_of : JobState → Option Instant
finished_at_of state = elim (locked state.finished_at) [ none ↦ none | some at ↦ at ]

-- The test of `retain`; `elapsed` stops at 0.
unfoldable pub is_kept : Instant → Duration → JobState → Bool
is_kept now retention state = elim (finished_at_of state) [
  | none ↦ true
  | some at ↦ ltb (now - at) retention
]

abbrev pub kept_at : Instant → Duration → List JobState → ℕ → Bool
kept_at now retention cells i = elim (cell_at i cells) [
  | none ↦ true
  | some state ↦ is_kept now retention state
]

unfoldable pub retain : (ℕ → Bool) → List (Uuid × ℕ) → List (Uuid × ℕ)
retain keep [] = []
retain keep ((id, i) ∷ table) =
    let rest = retain keep table in if keep i then (id, i) ∷ rest else rest

unfoldable pub reap : Instant → Jobs → Jobs
reap now jobs = record jobs {
  inner = assign (retain (kept_at now jobs.retention jobs.cells) jobs.inner.value) jobs.inner;
}

unfoldable pub lookup : Uuid → List (Uuid × ℕ) → Option ℕ
lookup id [] = none
lookup id ((key, i) ∷ table) = let rest = lookup id table in if key == id then some i else rest

-- `HashMap::insert`
unfoldable pub insert : Uuid → ℕ → List (Uuid × ℕ) → List (Uuid × ℕ)
insert id i [] = (id, i) ∷ []
insert id i ((key, j) ∷ table) =
    let rest = insert id i table in if key == id then (id, i) ∷ table else (key, j) ∷ rest

-- The job that an id names, with its place: the `Arc` that `get` hands out.
unfoldable pub get : Uuid → Jobs → Result JobError (ℕ × JobState)
get id jobs = do
  table ← ok_or (no_such_job id (jobs.retention / second)) (locked jobs.inner)
  i ← ok_or (no_such_job id (jobs.retention / second)) (lookup id table)
  state ← ok_or (no_such_job id (jobs.retention / second)) (cell_at i jobs.cells)
  ok (i, state)

unfoldable pub snapshot : JobState → Finished
snapshot state = record {
  status = elim (locked state.status) [ none ↦ running | some s ↦ s ];
  output = elim (locked state.output) [ none ↦ [] | some o ↦ from_utf8_lossy o ];
}

-- The `JobState` that `start` makes.
unfoldable pub fresh_state : Str → ℕ → Option ℕ → JobState
fresh_state command max_output pid = record {
  command = command;
  output = record { value = []; poisoned = false };
  status = record { value = running; poisoned = false };
  done = false;
  receivers = 0;
  finished_at = record { value = none; poisoned = false };
  pid = pid;
  limit = max_output;
  waiter = waiting;
}

-- The end of `start`: the tasks run also where the table cannot be locked.
unfoldable pub enter : Uuid → JobState → Jobs → Result JobError Uuid × Jobs
enter id state jobs =
    let made : Jobs = record jobs { cells = jobs.cells ++ state ∷ [] } in
    if jobs.inner.poisoned then (err table_poisoned, made) else (
      ok id,
      record made { inner = assign (insert id (length jobs.cells) jobs.inner.value) jobs.inner },
    )

-- `start` behind `spawn`
abbrev pub launched :
    Result IoError (Option ℕ) → Uuid → Str → ℕ → Jobs → Result JobError Uuid × Jobs
launched (err e) id command max_output jobs = (err (cannot_start command e), jobs)
launched (ok pid) id command max_output jobs = enter id (fresh_state command max_output pid) jobs

-- `spawn` runs a command in a directory and answers with the process's id.
unfoldable pub start :
    Instant
    → (PathBuf → Str → Result IoError (Option ℕ))
    → Uuid
    → Root
    → Str
    → ℕ
    → Jobs
    → Result JobError Uuid × Jobs
start now spawn id root command max_output jobs =
    launched (spawn root.path command) id command max_output (reap now jobs)

unfoldable pub update_cell : ℕ → (JobState → JobState) → List JobState → List JobState
update_cell i f [] = []
update_cell zero f (c ∷ cells) = f c ∷ cells
update_cell (suc i) f (c ∷ cells) = c ∷ update_cell i f cells

abbrev pub on_cell : ℕ → (JobState → JobState) → Jobs → Jobs
on_cell i f jobs = record jobs { cells = update_cell i f jobs.cells }

abbrev pub is_done : Option JobState → Bool
is_done (some state) = state.done
is_done none = false

abbrev pub waited : Option JobState → Option JobState → Option Finished
waited (some state) (some later) = if state.done then some (snapshot later) else none
waited _ _ = none

-- `wait` behind the subscription: `middle` is the state when the job is done or the time is up.
abbrev pub watched : ℕ → (Jobs → Jobs) → Jobs → Result JobError (Option Finished) × Jobs
watched i later middle =
    let after = if is_done (cell_at i middle.cells) then later middle else middle in
    (ok (waited (cell_at i middle.cells) (cell_at i after.cells)), on_cell i release after)

-- `wait` behind `get`
abbrev pub listened :
    (Jobs → Jobs)
    → (Jobs → Jobs)
    → Jobs
    → Result JobError (ℕ × JobState)
    → Result JobError (Option Finished) × Jobs
listened during later jobs (err e) = (err e, jobs)
listened during later jobs (ok job) = watched job.0 later (during (on_cell job.0 subscribe jobs))

-- `wait`: `during` is what the tasks and other calls do while it waits, `later` what they do in the
-- 20 ms behind a job that is done. The receiver is dropped at its end.
unfoldable pub wait :
    Uuid → (Jobs → Jobs) → (Jobs → Jobs) → Jobs → Result JobError (Option Finished) × Jobs
wait id during later jobs = listened during later jobs (get id jobs)

unfoldable pub poll : Uuid → Jobs → Result JobError (Str × Finished)
poll id jobs = do job ← get id jobs; ok (job.1.command, snapshot job.1)

abbrev pub is_running_status : Option Status → Bool
is_running_status (some running) = true
is_running_status _ = false

abbrev pub is_running : JobState → Bool
is_running state = is_running_status (locked state.status)

-- The process group of a leader, as `kill` names it: the negative of its id, which is below 2^31.
abbrev pub group_of : ℕ → ℤ
group_of zero = pos 0
group_of (suc n) = negsuc n

-- The group that `stop` signals.
unfoldable pub stop_target : Uuid → Jobs → Result JobError ℤ
stop_target id jobs = do
  job ← get id jobs
  if is_running job.1
      then (do pid ← ok_or (no_pid id) job.1.pid; ok (group_of pid))
      else err (already_finished id)

-- `kill` sends SIGKILL and answers whether it could.
unfoldable pub stop : (ℤ → Bool) → Uuid → Jobs → Result JobError Uuid
stop kill id jobs = do
  group ← stop_target id jobs
  if kill group then ok id else err (not_signalled id)
