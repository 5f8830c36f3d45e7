-- ===== src/Jobs/State.antt =====
-- src/exec_ops.rs: the state of a job and of the table, and the steps of the tasks of a command.
use local_mcp.Common.{
  ℕ, suc, ◌-◌, ◌==◌, min, Bool, true, Option, none, some, List, ◌++◌, leb, length, take,
  if◌then◌else◌,
}
use local_mcp.Common.Int.{ℤ}
use local_mcp.Common.Str.{Str, bytes}
use local_mcp.Common.Decimal.{decimal_int}
use local_mcp.Common.Result.{Result, ok, err}
use local_mcp.Root.{IoError}
use local_mcp.Store.Clock.{Duration}

pub data Status : Type 0 where
  running : Status
  exited : ℤ → Status
  signalled : Status

-- `Display for Status`
unfoldable pub status_text : Status → Str
status_text running = bytes "running"
status_text (exited code) = bytes "exited with code " ++ decimal_int code
status_text signalled = bytes "terminated by signal"

-- `std::sync::Mutex`
pub record Lock (A : Type 0) : Type 0 where
  pub value : A
  pub poisoned : Bool

-- `lock().ok()`
abbrev pub locked : {A : Type 0} → Lock A → Option A
locked l = if l.poisoned then none else some l.value

-- `if let Ok(mut value) = lock() { *value = ... }`
abbrev pub assign : {A : Type 0} → A → Lock A → Lock A
assign a l = if l.poisoned then l else record l { value = a }

-- Nanoseconds of the monotonic clock; `Uuid` is the 128 bits of an id.
abbrev pub Instant : Type 0
Instant = ℕ

abbrev pub Uuid : Type 0
Uuid = ℕ

-- How far the task that waits for the process has come.
pub data Waiter : Type 0 where
  waiting recorded stamped announced : Waiter

pub record JobState : Type 0 where
  pub command : Str
  pub output : Lock Str
  pub status : Lock Status
  -- the value of the watch channel, and how many receivers it has
  pub done : Bool
  pub receivers : ℕ
  pub finished_at : Lock (Option Instant)
  pub pid : Option ℕ
  -- the `max_output` of the two pumps
  pub limit : ℕ
  pub waiter : Waiter

pub record Jobs : Type 0 where
  pub inner : Lock (List (Uuid × ℕ))
  pub cells : List JobState
  pub retention : Duration

pub record Finished : Type 0 where
  pub status : Status
  pub output : Str

pub data JobError : Type 0 where
  no_such_job : Uuid → ℕ → JobError
  cannot_start : Str → IoError → JobError
  table_poisoned : JobError
  already_finished no_pid not_signalled : Uuid → JobError

-- One round of the loop of `pump`: what a read has brought goes into the room that is left.
unfoldable pub pump_chunk : Str → JobState → JobState
pump_chunk chunk state = elim (locked state.output) [
  | none ↦ state
  | some output ↦ if leb state.limit (length output) then state else record state {
    output =
        assign (output ++ take (min (length chunk) (state.limit - length output)) chunk)
          state.output;
  }
]

-- The three steps of the task that waits for the process.
abbrev pub status_of : Result IoError (Option ℤ) → Status
status_of (ok (some code)) = exited code
status_of (ok none) = signalled
status_of (err e) = signalled

unfoldable pub record_exit : Result IoError (Option ℤ) → JobState → JobState
record_exit exit state = record state {
  status = assign (status_of exit) state.status;
  waiter = recorded;
}

unfoldable pub stamp : Instant → JobState → JobState
stamp now state = record state {
  finished_at = assign (some now) state.finished_at;
  waiter = stamped;
}

-- `watch::Sender::send` stores nothing where the channel has no receiver.
unfoldable pub announce : JobState → JobState
announce state = record state {
  done = if state.receivers == 0 then state.done else true;
  waiter = announced;
}

-- `done.subscribe()`, and the drop of its receiver
unfoldable pub subscribe : JobState → JobState
subscribe state = record state { receivers = suc state.receivers }

unfoldable pub release : JobState → JobState
release state = record state { receivers = state.receivers - 1 }
