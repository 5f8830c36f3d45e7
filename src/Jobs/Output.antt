-- ===== src/Jobs/Output.antt =====
-- src/exec_ops.rs: what a job's output holds.
use local_mcp.Common.{
  ℕ, zero, suc, ◌-◌, min, ◌≤◌, ◌≡◌, refl, sym, ap, ◌∙◌, subst, false, Bool-cases, inl, inr, Option,
  none, some, some-inj, List, [], ◌∷◌, ◌++◌, append-nil, append_assoc, leb, leb→le, length, take,
  take-append, take-min, length-take, ◌==◌, All, arith, if◌then◌else◌,
}
use local_mcp.Common.Int.{ℤ}
use local_mcp.Common.Str.{Str}
use local_mcp.Common.Utf8.{from_utf8_lossy}
use local_mcp.Common.Result.{Result, ok, err}
use local_mcp.FilePath.{PathBuf}
use local_mcp.Root.{IoError, Root}
use local_mcp.Jobs.{
  Instant, Uuid, Waiter, waiting, recorded, stamped, announced, JobState, Jobs, Finished,
  pump_chunk, record_exit, stamp, announce, cell_at, start, poll, snapshot, launched, enter,
  fresh_state, reap, update_cell, subscribe, release,
}
use local_mcp.Jobs.Events.{
  Event, starts, reads, exits, stamps, announces, subscribes, releases, on_exit, on_stamp,
  on_announce, step, run,
}
use local_mcp.Jobs.Reachable.{Inv, start-Inv}
use local_mcp.Jobs.Progress.{cell_at-append}
use local_mcp.Jobs.Lasting.{Spares}
use local_mcp.Jobs.Found.{get_of_Found}
use local_mcp.Jobs.Calls.{start-Found, get-run}

-- What the pumps of the job at a place have read, in its order.
abbrev pub chunk_of : ℕ → Event → Str
chunk_of i (reads j chunk) = if i == j then chunk else []
chunk_of i e = []

abbrev pub chunks_of : ℕ → List Event → Str
chunks_of i [] = []
chunks_of i (e ∷ events) = chunk_of i e ++ chunks_of i events

-- The output is the beginning of what was read, up to the limit.
record Holds (read : Str) (limit : ℕ) (c : JobState) : Type 0 where
  free : c.output.poisoned ≡ false
  limited : c.limit ≡ limit
  written : c.output.value ≡ take limit read

take_room :
    (n : ℕ) (xs ys : Str)
    → take n xs ++ take (min (length ys) (n - length (take n xs))) ys ≡ take n (xs ++ ys)
take_room n xs ys =
    ap (λ (s : Str). take n xs ++ s)
      (take-min (min (length ys) (n - length (take n xs))) (n - length xs) ys
        (let h = length-take n xs in omega arith))
    ∙ sym (take-append n xs ys)

take_full : (n : ℕ) (xs ys : Str) → n ≤ length (take n xs) → take n xs ≡ take n (xs ++ ys)
take_full n xs ys h =
    let k = length-take n xs in
    let e : n - length xs ≡ 0 = omega arith in
    sym (take-append n xs ys ∙ rw e (append-nil (take n xs)))

pump_chunk-Holds :
    (chunk read : Str) (limit : ℕ) (c : JobState)
    → Holds read limit c
    → Holds (read ++ chunk) limit (pump_chunk chunk c)
unfolding pump_chunk
pump_chunk-Holds chunk read limit c h =
    rw h.free (elim (Bool-cases (leb c.limit (length c.output.value))) [
      | inl full ↦
          let enough : limit ≤ length (take limit read) =
            leb→le _ _ (rw (h.limited, h.written) at full) in
          rw full (record {
            free = refl;
            limited = h.limited;
            written = h.written ∙ take_full limit read chunk enough;
          })
      | inr room ↦ rw room (record {
        free = refl;
        limited = h.limited;
        written = rw (h.limited, h.written) (take_room limit read chunk);
      })
    ])

on_exit-Holds :
    (exit : Result IoError (Option ℤ)) (read : Str) (limit : ℕ) (c : JobState)
    → Holds read limit c
    → Holds read limit (on_exit exit c)
unfolding on_exit record_exit
on_exit-Holds exit read limit c h = by_waiter c.waiter
  where
    by_waiter : (w : Waiter) → Holds read limit (elim w [ waiting ↦ record_exit exit c | _ ↦ c ])
    by_waiter waiting = record { free = h.free; limited = h.limited; written = h.written }
    by_waiter recorded = h
    by_waiter stamped = h
    by_waiter announced = h

on_stamp-Holds :
    (now : Instant) (read : Str) (limit : ℕ) (c : JobState)
    → Holds read limit c
    → Holds read limit (on_stamp now c)
unfolding on_stamp stamp
on_stamp-Holds now read limit c h = by_waiter c.waiter
  where
    by_waiter : (w : Waiter) → Holds read limit (elim w [ recorded ↦ stamp now c | _ ↦ c ])
    by_waiter waiting = h
    by_waiter recorded = record { free = h.free; limited = h.limited; written = h.written }
    by_waiter stamped = h
    by_waiter announced = h

on_announce-Holds :
    (read : Str) (limit : ℕ) (c : JobState) → Holds read limit c → Holds read limit (on_announce c)
unfolding on_announce announce
on_announce-Holds read limit c h = by_waiter c.waiter
  where
    by_waiter : (w : Waiter) → Holds read limit (elim w [ stamped ↦ announce c | _ ↦ c ])
    by_waiter waiting = h
    by_waiter recorded = h
    by_waiter stamped = record { free = h.free; limited = h.limited; written = h.written }
    by_waiter announced = h

subscribe-Holds :
    (read : Str) (limit : ℕ) (c : JobState) → Holds read limit c → Holds read limit (subscribe c)
unfolding subscribe
subscribe-Holds read limit c h = record { free = h.free; limited = h.limited; written = h.written }

release-Holds :
    (read : Str) (limit : ℕ) (c : JobState) → Holds read limit c → Holds read limit (release c)
unfolding release
release-Holds read limit c h = record { free = h.free; limited = h.limited; written = h.written }

-- The job at a place holds what was read for it.
record HoldsAt (i : ℕ) (read : Str) (limit : ℕ) (cells : List JobState) : Type 0 where
  job : JobState
  at : cell_at i cells ≡ some job
  holds : Holds read limit job

update_cell-HoldsAt :
    (i j : ℕ) (f : JobState → JobState) (read more : Str) (limit : ℕ) (cells : List JobState)
    → ((c : JobState) → Holds read limit c → Holds (read ++ more) limit (f c))
    → HoldsAt i read limit cells
    → HoldsAt i (read ++ (if i == j then more else [])) limit (update_cell j f cells)
unfolding cell_at update_cell
update_cell-HoldsAt i j f read more limit [] k h = let at = h.at in cc
update_cell-HoldsAt zero zero f read more limit (x ∷ cells) k h = record {
  job = f h.job;
  at = ap (λ (o : Option JobState). elim o [ none ↦ none | some y ↦ some (f y) ]) h.at;
  holds = k h.job h.holds;
}
update_cell-HoldsAt zero (suc j) f read more limit (x ∷ cells) k h =
    let other : (0 == suc j) ≡ false = ground arith in
    rw (other, append-nil read) (record { job = h.job; at = h.at; holds = h.holds })
update_cell-HoldsAt (suc i) zero f read more limit (x ∷ cells) k h =
    let other : (suc i == 0) ≡ false = ground arith in
    rw (other, append-nil read) (record { job = h.job; at = h.at; holds = h.holds })
update_cell-HoldsAt (suc i) (suc j) f read more limit (x ∷ cells) k h =
    let p =
      update_cell-HoldsAt i j f read more limit cells k
        (record { job = h.job; at = h.at; holds = h.holds }) in
    let same : (suc i == suc j) ≡ (i == j) = ground arith in
    rw same (record { job = p.job; at = p.at; holds = p.holds })

launched-HoldsAt :
    (r : Result IoError (Option ℕ)) (id : Uuid) (command : Str) (max_output : ℕ) (jobs : Jobs)
    (i : ℕ) (read : Str) (limit : ℕ)
    → HoldsAt i read limit jobs.cells
    → HoldsAt i read limit (launched r id command max_output jobs).1.cells
unfolding enter
launched-HoldsAt (err e) id command max_output jobs i read limit h = h
launched-HoldsAt (ok pid) id command max_output jobs i read limit h =
    let later : HoldsAt i read limit (jobs.cells ++ fresh_state command max_output pid ∷ []) =
      record { job = h.job; at = cell_at-append i jobs.cells _ h.job h.at; holds = h.holds } in
    elim (Bool-cases jobs.inner.poisoned) [ inl lost ↦ rw lost later | inr free ↦ rw free later ]

-- A step of the waiting task writes nothing.
quiet-HoldsAt :
    (i j : ℕ) (f : JobState → JobState) (read : Str) (limit : ℕ) (cells : List JobState)
    → ((c : JobState) → Holds read limit c → Holds read limit (f c))
    → HoldsAt i read limit cells
    → HoldsAt i (read ++ []) limit (update_cell j f cells)
quiet-HoldsAt i j f read limit cells k h =
    let none_more : (if i == j then [] else []) ≡ [] = ground arith in
    subst (λ (s : Str). HoldsAt i (read ++ s) limit (update_cell j f cells)) none_more
      (update_cell-HoldsAt i j f read [] limit cells (λ c held. rw (append-nil read) (k c held)) h)

step-HoldsAt :
    (e : Event) (jobs : Jobs) (i : ℕ) (read : Str) (limit : ℕ)
    → HoldsAt i read limit jobs.cells
    → HoldsAt i (read ++ chunk_of i e) limit (step e jobs).cells
unfolding step start reap
step-HoldsAt (starts now spawned id root command max_output) jobs i read limit h =
    rw (append-nil read)
      (launched-HoldsAt spawned id command max_output (reap now jobs) i read limit h)
step-HoldsAt (reads j chunk) jobs i read limit h =
    update_cell-HoldsAt i j (pump_chunk chunk) read chunk limit jobs.cells
      (pump_chunk-Holds chunk read limit) h
step-HoldsAt (exits j exit) jobs i read limit h =
    quiet-HoldsAt i j (on_exit exit) read limit jobs.cells (on_exit-Holds exit read limit) h
step-HoldsAt (stamps j now) jobs i read limit h =
    quiet-HoldsAt i j (on_stamp now) read limit jobs.cells (on_stamp-Holds now read limit) h
step-HoldsAt (announces j) jobs i read limit h =
    quiet-HoldsAt i j on_announce read limit jobs.cells (on_announce-Holds read limit) h
step-HoldsAt (subscribes j) jobs i read limit h =
    quiet-HoldsAt i j subscribe read limit jobs.cells (subscribe-Holds read limit) h
step-HoldsAt (releases j) jobs i read limit h =
    quiet-HoldsAt i j release read limit jobs.cells (release-Holds read limit) h

run-HoldsAt :
    (events : List Event) (jobs : Jobs) (i : ℕ) (read : Str) (limit : ℕ)
    → HoldsAt i read limit jobs.cells
    → HoldsAt i (read ++ chunks_of i events) limit (run events jobs).cells
unfolding run
run-HoldsAt [] jobs i read limit h = rw (append-nil read) h
run-HoldsAt (e ∷ events) jobs i read limit h =
    subst (λ (s : Str). HoldsAt i s limit (run events (step e jobs)).cells)
      (append_assoc read (chunk_of i e) (chunks_of i events))
      (run-HoldsAt events (step e jobs) i (read ++ chunk_of i e) limit
        (step-HoldsAt e jobs i read limit h))

fresh-Holds :
    (command : Str) (limit : ℕ) (pid : Option ℕ) → Holds [] limit (fresh_state command limit pid)
unfolding fresh_state
fresh-Holds command zero pid = record { free = refl; limited = refl; written = refl }
fresh-Holds command (suc limit) pid = record { free = refl; limited = refl; written = refl }

snapshot-Holds :
    (read : Str) (limit : ℕ) (c : JobState)
    → Holds read limit c
    → (snapshot c).output ≡ from_utf8_lossy (take limit read)
unfolding snapshot
snapshot-Holds read limit c h = rw (h.free, h.written) refl

fresh_command :
    (command : Str) (limit : ℕ) (pid : Option ℕ) → (fresh_state command limit pid).command ≡ command
unfolding fresh_state
fresh_command command limit pid = refl

-- In a table that the operations can reach, a command that could be started, and whatever happens
-- after it, its own steps and those of other commands among it: as long as its id names it (no start
-- draws the id again, and none comes the retention or more after the end of the job), `poll` answers
-- with the command and with the beginning, up to the limit, of all that its two pumps have read, in
-- the order they read it.
pub poll-run :
    (now : Instant) (spawn : PathBuf → Str → Result IoError (Option ℕ)) (id : Uuid) (root : Root)
    (command : Str) (limit : ℕ) (jobs : Jobs) (pid : Option ℕ) (events : List Event) (d : JobState)
    → Inv jobs
    → spawn root.path command ≡ ok pid
    → let after : Jobs = (start now spawn id root command limit jobs).1 in
      cell_at (length jobs.cells) (run events after).cells ≡ some d
      → All (Spares id after.retention d.finished_at.value) events
      → poll id (run events after)
        ≡ ok (
          command,
          record {
            status = (snapshot d).status;
            output = from_utf8_lossy (take limit (chunks_of (length jobs.cells) events));
          },
        )
unfolding poll
poll-run now spawn id root command limit jobs pid events d v spawned end spared =
    let after : Jobs = (start now spawn id root command limit jobs).1 in
    let (_, found) = start-Found now spawn id root command limit jobs pid v spawned in
    let fresh : JobState = fresh_state command limit pid in
    let (named, evolved) =
      get-run events after id (length jobs.cells) fresh d
        (start-Inv now spawn id root command limit jobs v) (get_of_Found id _ _ _ found) end
        spared in
    let held =
      run-HoldsAt events after (length jobs.cells) [] limit
        (record { job = fresh; at = found.at; holds = fresh-Holds command limit pid }) in
    let same : held.job ≡ d = some-inj _ _ (sym held.at ∙ end) in
    rw named (
      ap (λ (x : Str × Finished). ok x)
        (λ k. (
          (evolved.command ∙ fresh_command command limit pid) k,
          record {
            status = (snapshot d).status;
            output =
                snapshot-Holds (chunks_of (length jobs.cells) events) limit d
                  (subst (Holds (chunks_of (length jobs.cells) events) limit) same held.holds) k;
          },
        )))
