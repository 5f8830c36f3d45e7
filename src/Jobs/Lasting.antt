-- ===== src/Jobs/Lasting.antt =====
-- src/exec_ops.rs: how long an id names its job.
use local_mcp.Common.{
  ℕ, ◌-◌, ◌<◌, ◌≡◌, ◌≢◌, refl, sym, ◌∙◌, subst, Bool, true, false, Bool-cases, inl, inr, Option,
  some, Option-cases, some-inj, List, [], ◌∷◌, ◌++◌, length, All, arith,
}
use local_mcp.Common.Str.{Str}
use local_mcp.Common.Result.{Result, ok, err}
use local_mcp.Root.{IoError}
use local_mcp.Store.Clock.{Duration}
use local_mcp.Jobs.{
  Instant, Uuid, JobState, Jobs, cell_at, is_kept, kept_at, retain, reap, lookup, insert,
  fresh_state, enter, launched, start,
}
use local_mcp.Jobs.Events.{
  Event, starts, reads, exits, stamps, announces, subscribes, releases, step, run,
}
use local_mcp.Jobs.Reachable.{Inv, reap-Inv, step-Inv}
use local_mcp.Jobs.Progress.{
  Evolves, Evolves-trans, Carried, Carried-refl, update_cell-Carried, cell_at-append, cell_at-Sane,
  pump_chunk-Evolves, on_exit-Evolves, on_stamp-Evolves, on_announce-Evolves, subscribe-Evolves,
  release-Evolves,
}

launched-Carried :
    (r : Result IoError (Option ℕ)) (id : Uuid) (command : Str) (limit : ℕ) (jobs : Jobs) (i : ℕ)
    (c : JobState)
    → jobs.inner.poisoned ≡ false
    → cell_at i jobs.cells ≡ some c
    → Carried i c (launched r id command limit jobs).1.cells
unfolding enter
launched-Carried (err e) id command limit jobs i c free h = Carried-refl i c jobs.cells h
launched-Carried (ok pid) id command limit jobs i c free h = rw free (
    Carried-refl i c (jobs.cells ++ fresh_state command limit pid ∷ [])
      (cell_at-append i jobs.cells _ c h))

step-Carried :
    (e : Event) (jobs : Jobs) (i : ℕ) (c : JobState)
    → Inv jobs
    → cell_at i jobs.cells ≡ some c
    → Carried i c (step e jobs).cells
unfolding step start reap
step-Carried (starts now spawned id root command limit) jobs i c v h =
    launched-Carried spawned id command limit (reap now jobs) i c (reap-Inv now jobs v).table_free h
step-Carried (reads j chunk) jobs i c v h =
    update_cell-Carried i j _ jobs.cells c h
      (pump_chunk-Evolves chunk c (cell_at-Sane i jobs.cells c v.sane h))
step-Carried (exits j exit) jobs i c v h =
    update_cell-Carried i j _ jobs.cells c h
      (on_exit-Evolves exit c (cell_at-Sane i jobs.cells c v.sane h))
step-Carried (stamps j now) jobs i c v h =
    update_cell-Carried i j _ jobs.cells c h
      (on_stamp-Evolves now c (cell_at-Sane i jobs.cells c v.sane h))
step-Carried (announces j) jobs i c v h =
    update_cell-Carried i j _ jobs.cells c h
      (on_announce-Evolves c (cell_at-Sane i jobs.cells c v.sane h))
step-Carried (subscribes j) jobs i c v h =
    update_cell-Carried i j _ jobs.cells c h (subscribe-Evolves c)
step-Carried (releases j) jobs i c v h =
    update_cell-Carried i j _ jobs.cells c h (release-Evolves c)

-- Whatever comes later, a job that was made stays at its place and only evolves: its output grows at
-- the end, and its status, the time of its end and `done` do not change any more once they are set.
pub run-Carried :
    (events : List Event) (jobs : Jobs) (i : ℕ) (c : JobState)
    → Inv jobs
    → cell_at i jobs.cells ≡ some c
    → Carried i c (run events jobs).cells
unfolding run
run-Carried [] jobs i c v h = Carried-refl i c jobs.cells h
run-Carried (e ∷ events) jobs i c v h =
    let p = step-Carried e jobs i c v h in
    let q = run-Carried events (step e jobs) i p.later (step-Inv e jobs v) p.at in
    record {
      later = q.later;
      at = q.at;
      evolves = Evolves-trans c p.later q.later p.evolves q.evolves;
    }

lookup-retain :
    (id : Uuid) (keep : ℕ → Bool) (table : List (Uuid × ℕ)) (i : ℕ)
    → lookup id table ≡ some i
    → keep i ≡ true
    → lookup id (retain keep table) ≡ some i
unfolding lookup retain
lookup-retain id keep [] i h k = cc
lookup-retain id keep ((key, j) ∷ table) i h k = ground (arith, lookup-retain id keep table i)

lookup-insert_other :
    (id new : Uuid) (j : ℕ) (table : List (Uuid × ℕ))
    → new ≢ id
    → lookup id (insert new j table) ≡ lookup id table
unfolding lookup insert
lookup-insert_other id new j [] other = ground (arith, other)
lookup-insert_other id new j ((key, k) ∷ table) other =
    ground (arith, other, lookup-insert_other id new j table other)

-- A start that does not draw the id, and comes before a job that ends at `finish` is to be forgotten.
abbrev pub Spares : Uuid → Duration → Option Instant → Event → Type 0
Spares id retention finish (starts now spawned new root command limit) =
    (new ≢ id) × ((t : Instant) → finish ≡ some t → now - t < retention)
Spares id retention finish e = Unit {0}

is_kept-lem :
    (now : Instant) (retention : Duration) (c : JobState)
    → ((t : Instant) → c.finished_at.value ≡ some t → now - t < retention)
    → is_kept now retention c ≡ true
unfolding is_kept
is_kept-lem now retention c h = elim (Bool-cases c.finished_at.poisoned) [
  | inl lost ↦ rw lost refl
  | inr free ↦ elim (Option-cases c.finished_at.value) [
    | inl unset ↦ rw (free, unset) refl
    | inr (t, set) ↦ let soon = h t set in rw (free, set) (ground (arith, soon))
  ]
]

reap-kept :
    (now : Instant) (jobs : Jobs) (i : ℕ) (c : JobState)
    → cell_at i jobs.cells ≡ some c
    → ((t : Instant) → c.finished_at.value ≡ some t → now - t < jobs.retention)
    → kept_at now jobs.retention jobs.cells i ≡ true
reap-kept now jobs i c at h = rw (at, kept_at) (is_kept-lem now jobs.retention c h)

lookup-reap :
    (now : Instant) (jobs : Jobs) (id : Uuid) (i : ℕ)
    → jobs.inner.poisoned ≡ false
    → lookup id jobs.inner.value ≡ some i
    → kept_at now jobs.retention jobs.cells i ≡ true
    → lookup id (reap now jobs).inner.value ≡ some i
unfolding reap
lookup-reap now jobs id i free named kept =
    rw free (lookup-retain id (kept_at now jobs.retention jobs.cells) jobs.inner.value i named kept)

lookup-launched :
    (r : Result IoError (Option ℕ)) (id new : Uuid) (command : Str) (limit : ℕ) (jobs : Jobs)
    (i : ℕ)
    → jobs.inner.poisoned ≡ false
    → new ≢ id
    → lookup id jobs.inner.value ≡ some i
    → lookup id (launched r new command limit jobs).1.inner.value ≡ some i
unfolding enter
lookup-launched (err e) id new command limit jobs i free other named = named
lookup-launched (ok pid) id new command limit jobs i free other named =
    rw free (lookup-insert_other id new (length jobs.cells) jobs.inner.value other ∙ named)

retention-launched :
    (r : Result IoError (Option ℕ)) (new : Uuid) (command : Str) (limit : ℕ) (jobs : Jobs)
    → (launched r new command limit jobs).1.retention ≡ jobs.retention
unfolding enter
retention-launched (err e) new command limit jobs = refl
retention-launched (ok pid) new command limit jobs = elim (Bool-cases jobs.inner.poisoned) [
  | inl lost ↦ rw lost refl
  | inr free ↦ rw free refl
]

pub retention-step : (e : Event) (jobs : Jobs) → (step e jobs).retention ≡ jobs.retention
unfolding step start reap
retention-step (starts now spawned new root command limit) jobs =
    retention-launched spawned new command limit (reap now jobs)
retention-step (reads i chunk) jobs = refl
retention-step (exits i exit) jobs = refl
retention-step (stamps i now) jobs = refl
retention-step (announces i) jobs = refl
retention-step (subscribes i) jobs = refl
retention-step (releases i) jobs = refl

-- One event that spares the id leaves it its job; `d` is the job at the end.
step-lookup :
    (e : Event) (jobs : Jobs) (id : Uuid) (i : ℕ) (c d : JobState)
    → Inv jobs
    → lookup id jobs.inner.value ≡ some i
    → cell_at i jobs.cells ≡ some c
    → Evolves c d
    → Spares id jobs.retention d.finished_at.value e
    → lookup id (step e jobs).inner.value ≡ some i
unfolding step start
step-lookup (starts now spawned new root command limit) jobs id i c d v named at ev (other, soon) =
    lookup-launched spawned id new command limit (reap now jobs) i (reap-Inv now jobs v).table_free
      other
      (lookup-reap now jobs id i v.table_free named
        (reap-kept now jobs i c at (λ t h. soon t (ev.finished t h))))
step-lookup (reads j chunk) jobs id i c d v named at ev s = named
step-lookup (exits j exit) jobs id i c d v named at ev s = named
step-lookup (stamps j now) jobs id i c d v named at ev s = named
step-lookup (announces j) jobs id i c d v named at ev s = named
step-lookup (subscribes j) jobs id i c d v named at ev s = named
step-lookup (releases j) jobs id i c d v named at ev s = named

pub run-lookup :
    (events : List Event) (jobs : Jobs) (id : Uuid) (i : ℕ) (c d : JobState)
    → Inv jobs
    → lookup id jobs.inner.value ≡ some i
    → cell_at i jobs.cells ≡ some c
    → cell_at i (run events jobs).cells ≡ some d
    → All (Spares id jobs.retention d.finished_at.value) events
    → lookup id (run events jobs).inner.value ≡ some i
unfolding run
run-lookup [] jobs id i c d v named at end s = named
run-lookup (e ∷ events) jobs id i c d v named at end (spared, s) =
    let p = step-Carried e jobs i c v at in
    let q = run-Carried events (step e jobs) i p.later (step-Inv e jobs v) p.at in
    let same : q.later ≡ d = some-inj _ _ (sym q.at ∙ end) in
    let ev : Evolves c d =
      subst (Evolves c) same (Evolves-trans c p.later q.later p.evolves q.evolves) in
    run-lookup events (step e jobs) id i p.later d (step-Inv e jobs v)
      (step-lookup e jobs id i c d v named at ev spared) p.at end
      (subst (λ r. All (Spares id r d.finished_at.value) events) (sym (retention-step e jobs)) s)
