-- ===== src/Jobs/Reachable.antt =====
-- src/exec_ops.rs: the whole table in every state that the program can reach.
use local_mcp.Common.{
  ℕ, zero, suc, ◌≤◌, ◌<◌, ◌≡◌, refl, sym, ap, subst, Bool, false, Bool-cases, inl, inr, Option,
  List, [], ◌∷◌, ◌++◌, ◌==◌, length, length-append, All, All-append, arith, if◌then◌else◌,
}
use local_mcp.Common.Str.{Str}
use local_mcp.Common.Result.{Result, ok, err}
use local_mcp.FilePath.{PathBuf}
use local_mcp.Root.{IoError, Root}
use local_mcp.Store.Clock.{Duration}
use local_mcp.Jobs.{
  Lock, Instant, Uuid, JobState, Jobs, launched, new, retain, kept_at, reap, insert, fresh_state,
  enter, start, update_cell, on_cell,
}
use local_mcp.Jobs.Events.{
  Event, starts, reads, exits, stamps, announces, subscribes, releases, step, run,
}
use local_mcp.Jobs.Invariant.{
  Sane, pump_chunk-Sane, on_exit-Sane, on_stamp-Sane, on_announce-Sane, subscribe-Sane,
  release-Sane,
}

pub record Inv (jobs : Jobs) : Type 0 where
  pub table_free : jobs.inner.poisoned ≡ false
  pub sane : All Sane jobs.cells
  pub named : All (λ (e : Uuid × ℕ). e.1 < length jobs.cells) jobs.inner.value

update_cell-All :
    (P : JobState → Type 0) (i : ℕ) (f : JobState → JobState) (cells : List JobState)
    → ((c : JobState) → P c → P (f c))
    → All P cells
    → All P (update_cell i f cells)
unfolding update_cell
update_cell-All P i f [] k h = tt
update_cell-All P zero f (c ∷ cells) k (p, h) = (k c p, h)
update_cell-All P (suc i) f (c ∷ cells) k (p, h) = (p, update_cell-All P i f cells k h)

pub length-update_cell :
    (i : ℕ) (f : JobState → JobState) (cells : List JobState)
    → length (update_cell i f cells) ≡ length cells
unfolding update_cell
length-update_cell i f [] = refl
length-update_cell zero f (c ∷ cells) = refl
length-update_cell (suc i) f (c ∷ cells) = ap suc (length-update_cell i f cells)

retain-All :
    (P : Uuid × ℕ → Type 0) (keep : ℕ → Bool) (table : List (Uuid × ℕ))
    → All P table
    → All P (retain keep table)
unfolding retain
retain-All P keep [] h = tt
retain-All P keep ((id, i) ∷ table) (p, h) = elim (Bool-cases (keep i)) [
  | inl stays ↦ rw stays (p, retain-All P keep table h)
  | inr goes ↦ rw goes (retain-All P keep table h)
]

insert-All :
    (P : Uuid × ℕ → Type 0) (id : Uuid) (i : ℕ) (table : List (Uuid × ℕ))
    → P (id, i)
    → All P table
    → All P (insert id i table)
unfolding insert
insert-All P id i [] q h = (q, tt)
insert-All P id i ((key, j) ∷ table) q (p, h) = elim (Bool-cases (key == id)) [
  | inl same ↦ rw same (q, h)
  | inr other ↦ rw other (p, insert-All P id i table q h)
]

below_suc :
    (n m : ℕ) (table : List (Uuid × ℕ))
    → n ≤ m
    → All (λ (e : Uuid × ℕ). e.1 < n) table
    → All (λ (e : Uuid × ℕ). e.1 < m) table
below_suc n m [] le h = tt
below_suc n m (e ∷ table) le (p, h) = (omega (arith, p, le), below_suc n m table le h)

pub on_cell-Inv :
    (i : ℕ) (f : JobState → JobState) (jobs : Jobs)
    → ((c : JobState) → Sane c → Sane (f c))
    → Inv jobs
    → Inv (on_cell i f jobs)
on_cell-Inv i f jobs k v = record {
  table_free = v.table_free;
  sane = update_cell-All Sane i f jobs.cells k v.sane;
  named = rw (length-update_cell i f jobs.cells) v.named;
}

pub reap-Inv : (now : Instant) (jobs : Jobs) → Inv jobs → Inv (reap now jobs)
unfolding reap
reap-Inv now jobs v = record {
  table_free = ground (arith, v.table_free);
  sane = v.sane;
  named =
      subst
        (λ (l : Lock (List (Uuid × ℕ))). All (λ (e : Uuid × ℕ). e.1 < length jobs.cells) l.value)
        (sym (
          ap
            (λ p. if p then jobs.inner else record jobs.inner {
              value = retain (kept_at now jobs.retention jobs.cells) jobs.inner.value;
            })
            v.table_free))
        (retain-All _ (kept_at now jobs.retention jobs.cells) jobs.inner.value v.named);
}

fresh_state-Sane :
    (command : Str) (limit : ℕ) (pid : Option ℕ) → Sane (fresh_state command limit pid)
unfolding fresh_state
fresh_state-Sane command limit pid = record {
  output_free = refl;
  status_free = refl;
  finished_free = refl;
  bounded = omega arith;
  phase = (refl, refl, refl);
}

enter-Inv :
    (id : Uuid) (state : JobState) (jobs : Jobs)
    → Sane state
    → Inv jobs
    → Inv (enter id state jobs).1
unfolding enter
enter-Inv id state jobs s v =
    let more : length jobs.cells < length (jobs.cells ++ state ∷ []) =
      omega (arith, length-append jobs.cells (state ∷ [])) in
    let cells : All Sane (jobs.cells ++ state ∷ []) =
      All-append Sane jobs.cells (state ∷ []) v.sane (s, tt) in
    rw v.table_free (record {
      table_free = refl;
      sane = cells;
      named =
          (insert-All _ id (length jobs.cells) jobs.inner.value more
            (below_suc (length jobs.cells) _ jobs.inner.value (omega (arith, more)) v.named));
    })

pub launched-Inv :
    (r : Result IoError (Option ℕ)) (id : Uuid) (command : Str) (limit : ℕ) (jobs : Jobs)
    → Inv jobs
    → Inv (launched r id command limit jobs).1
launched-Inv (ok pid) id command limit jobs v =
    enter-Inv id (fresh_state command limit pid) jobs (fresh_state-Sane command limit pid) v
launched-Inv (err e) id command limit jobs v = v

pub start-Inv :
    (now : Instant) (spawn : PathBuf → Str → Result IoError (Option ℕ)) (id : Uuid) (root : Root)
    (command : Str) (limit : ℕ) (jobs : Jobs)
    → Inv jobs
    → Inv (start now spawn id root command limit jobs).1
unfolding start
start-Inv now spawn id root command limit jobs v =
    launched-Inv (spawn root.path command) id command limit (reap now jobs) (reap-Inv now jobs v)

pub step-Inv : (e : Event) (jobs : Jobs) → Inv jobs → Inv (step e jobs)
unfolding step
step-Inv (starts now spawned id root command limit) jobs v =
    start-Inv now _ id root command limit jobs v
step-Inv (reads i chunk) jobs v = on_cell-Inv i _ jobs (pump_chunk-Sane chunk) v
step-Inv (exits i exit) jobs v = on_cell-Inv i _ jobs (on_exit-Sane exit) v
step-Inv (stamps i now) jobs v = on_cell-Inv i _ jobs (on_stamp-Sane now) v
step-Inv (announces i) jobs v = on_cell-Inv i _ jobs on_announce-Sane v
step-Inv (subscribes i) jobs v = on_cell-Inv i _ jobs subscribe-Sane v
step-Inv (releases i) jobs v = on_cell-Inv i _ jobs release-Sane v

pub run-Inv : (events : List Event) (jobs : Jobs) → Inv jobs → Inv (run events jobs)
unfolding run
run-Inv [] jobs v = v
run-Inv (e ∷ events) jobs v = run-Inv events (step e jobs) (step-Inv e jobs v)

-- In every state that is reached from an empty table, whatever the order of calls and of the steps of
-- the tasks: no lock is poisoned, every name in the table stands for a job, and of every job the
-- output is within its limit; its status is `running` until the exit is recorded and never after, the
-- time of the end is there exactly from the second step on, and `done` never holds before the third.
pub run-new : (events : List Event) (retention : Duration) → Inv (run events (new retention))
unfolding new
run-new events retention = run-Inv events _ (record { table_free = refl; sane = tt; named = tt })
