-- ===== src/Jobs/Events.antt =====
-- src/exec_ops.rs: the table of commands through time. Calls of `start` and the steps of the tasks of
-- every command come in any order; a step of a task that is not due does nothing.
use local_mcp.Common.{ℕ, Option, List, [], ◌∷◌}
use local_mcp.Common.Int.{ℤ}
use local_mcp.Common.Str.{Str}
use local_mcp.Common.Result.{Result}
use local_mcp.Root.{IoError, Root}
use local_mcp.Jobs.{
  Instant, Uuid, waiting, recorded, stamped, JobState, Jobs, pump_chunk, record_exit, stamp,
  announce, subscribe, release, on_cell, start,
}

pub data Event : Type 0 where
  -- `start`, with the time, what `spawn` answers and the id that is drawn
  starts : Instant → Result IoError (Option ℕ) → Uuid → Root → Str → ℕ → Event
  -- one of the two pumps of a job has read a chunk
  reads : ℕ → Str → Event
  -- the three steps of the task that waits for the process
  exits : ℕ → Result IoError (Option ℤ) → Event
  stamps : ℕ → Instant → Event
  announces : ℕ → Event
  -- a `wait` for a job begins, and ends
  subscribes : ℕ → Event
  releases : ℕ → Event

-- A step of the waiting task, where it is due.
unfoldable pub on_exit : Result IoError (Option ℤ) → JobState → JobState
on_exit exit state = elim state.waiter [ waiting ↦ record_exit exit state | _ ↦ state ]

unfoldable pub on_stamp : Instant → JobState → JobState
on_stamp now state = elim state.waiter [ recorded ↦ stamp now state | _ ↦ state ]

unfoldable pub on_announce : JobState → JobState
on_announce state = elim state.waiter [ stamped ↦ announce state | _ ↦ state ]

unfoldable pub step : Event → Jobs → Jobs
step (starts now spawned id root command max_output) jobs =
    (start now (λ directory text. spawned) id root command max_output jobs).1
step (reads i chunk) jobs = on_cell i (pump_chunk chunk) jobs
step (exits i exit) jobs = on_cell i (on_exit exit) jobs
step (stamps i now) jobs = on_cell i (on_stamp now) jobs
step (announces i) jobs = on_cell i on_announce jobs
step (subscribes i) jobs = on_cell i subscribe jobs
step (releases i) jobs = on_cell i release jobs

unfoldable pub run : List Event → Jobs → Jobs
run [] jobs = jobs
run (e ∷ events) jobs = run events (step e jobs)
