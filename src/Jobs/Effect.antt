-- ===== src/Jobs/Effect.antt =====
-- src/exec_ops.rs: what an event makes of the job at one place, and what the waits see of it.
use local_mcp.Common.{
  ℕ, zero, suc, ◌≤◌, ◌≡◌, refl, sym, ap, ◌∙◌, subst, Bool, true, false, Bool-cases, inl, inr,
  Option, some, some-inj, List, [], ◌∷◌, ◌==◌, leb, length, All, arith, if◌then◌else◌,
}
use local_mcp.Common.Int.{ℤ}
use local_mcp.Common.Str.{Str}
use local_mcp.Common.Result.{Result, ok, err}
use local_mcp.Root.{IoError}
use local_mcp.Jobs.{
  Instant, Uuid, Waiter, waiting, recorded, stamped, announced, JobState, Jobs, pump_chunk,
  record_exit, stamp, announce, subscribe, release, cell_at, reap, launched, fresh_state, enter,
  start, update_cell,
}
use local_mcp.Jobs.Events.{
  Event, starts, reads, exits, stamps, announces, subscribes, releases, on_exit, on_stamp,
  on_announce, step, run,
}
use local_mcp.Jobs.Progress.{cell_at-append}

abbrev pub effect : ℕ → Event → JobState → JobState
effect i (starts now spawned id root command limit) c = c
effect i (reads j chunk) c = if i == j then pump_chunk chunk c else c
effect i (exits j exit) c = if i == j then on_exit exit c else c
effect i (stamps j now) c = if i == j then on_stamp now c else c
effect i (announces j) c = if i == j then on_announce c else c
effect i (subscribes j) c = if i == j then subscribe c else c
effect i (releases j) c = if i == j then release c else c

abbrev pub effects : ℕ → List Event → JobState → JobState
effects i [] c = c
effects i (e ∷ events) c = effects i events (effect i e c)

pub cell_at-update_cell :
    (i j : ℕ) (f : JobState → JobState) (cells : List JobState) (c : JobState)
    → cell_at i cells ≡ some c
    → cell_at i (update_cell j f cells) ≡ some (if i == j then f c else c)
unfolding cell_at update_cell
cell_at-update_cell i j f [] c h = cc
cell_at-update_cell zero zero f (x ∷ cells) c h = ap (λ (y : JobState). some (f y)) (some-inj x c h)
cell_at-update_cell zero (suc j) f (x ∷ cells) c h =
    let other : (0 == suc j) ≡ false = ground arith in rw other h
cell_at-update_cell (suc i) zero f (x ∷ cells) c h =
    let other : (suc i == 0) ≡ false = ground arith in rw other h
cell_at-update_cell (suc i) (suc j) f (x ∷ cells) c h =
    let same : (suc i == suc j) ≡ (i == j) = ground arith in
    rw same (cell_at-update_cell i j f cells c h)

cell_at-launched :
    (r : Result IoError (Option ℕ)) (id : Uuid) (command : Str) (limit : ℕ) (jobs : Jobs) (i : ℕ)
    (c : JobState)
    → cell_at i jobs.cells ≡ some c
    → cell_at i (launched r id command limit jobs).1.cells ≡ some c
unfolding enter
cell_at-launched (err e) id command limit jobs i c h = h
cell_at-launched (ok pid) id command limit jobs i c h =
    let later = cell_at-append i jobs.cells (fresh_state command limit pid ∷ []) c h in
    elim (Bool-cases jobs.inner.poisoned) [ inl lost ↦ rw lost later | inr free ↦ rw free later ]

cell_at-step :
    (e : Event) (jobs : Jobs) (i : ℕ) (c : JobState)
    → cell_at i jobs.cells ≡ some c
    → cell_at i (step e jobs).cells ≡ some (effect i e c)
unfolding step start reap
cell_at-step (starts now spawned id root command limit) jobs i c h =
    cell_at-launched spawned id command limit (reap now jobs) i c h
cell_at-step (reads j chunk) jobs i c h = cell_at-update_cell i j (pump_chunk chunk) jobs.cells c h
cell_at-step (exits j exit) jobs i c h = cell_at-update_cell i j (on_exit exit) jobs.cells c h
cell_at-step (stamps j now) jobs i c h = cell_at-update_cell i j (on_stamp now) jobs.cells c h
cell_at-step (announces j) jobs i c h = cell_at-update_cell i j on_announce jobs.cells c h
cell_at-step (subscribes j) jobs i c h = cell_at-update_cell i j subscribe jobs.cells c h
cell_at-step (releases j) jobs i c h = cell_at-update_cell i j release jobs.cells c h

pub cell_at-run :
    (events : List Event) (jobs : Jobs) (i : ℕ) (c : JobState)
    → cell_at i jobs.cells ≡ some c
    → cell_at i (run events jobs).cells ≡ some (effects i events c)
unfolding run
cell_at-run [] jobs i c h = h
cell_at-run (e ∷ events) jobs i c h =
    cell_at-run events (step e jobs) i (effect i e c) (cell_at-step e jobs i c h)

-- No receiver of the job at a place is dropped: another wait for the job does not end.
abbrev pub Stays : ℕ → Event → Type 0
Stays i (releases j) = (i == j) ≡ false
Stays i e = Unit {0}

-- The task has ended without a receiver.
abbrev pub Missed : JobState → Type 0
Missed c = (c.waiter ≡ announced) × (c.done ≡ false)

-- Somebody listens, and has heard of the end that there was.
abbrev pub Heard : JobState → Type 0
Heard c = (1 ≤ c.receivers) × (c.waiter ≡ announced → c.done ≡ true)

-- A chunk leaves what a wait sees as it is.
record Alike (c d : JobState) : Type 0 where
  waiter : d.waiter ≡ c.waiter
  done : d.done ≡ c.done
  receivers : d.receivers ≡ c.receivers

pump_chunk-Alike : (chunk : Str) (c : JobState) → Alike c (pump_chunk chunk c)
unfolding pump_chunk
pump_chunk-Alike chunk c = elim (Bool-cases c.output.poisoned) [
  | inl lost ↦ rw lost (record { waiter = refl; done = refl; receivers = refl })
  | inr free ↦ elim (Bool-cases (leb c.limit (length c.output.value))) [
    | inl full ↦ rw (free, full) (record { waiter = refl; done = refl; receivers = refl })
    | inr room ↦ rw (free, room) (record { waiter = refl; done = refl; receivers = refl })
  ]
]

-- A property that a step keeps where it is due at this place.
effect_at :
    (P : JobState → Type 0) (b : Bool) (c d : JobState)
    → P c
    → (b ≡ true → P d)
    → P (if b then d else c)
effect_at P true c d p q = q refl
effect_at P false c d p q = p

effect-Missed : (i : ℕ) (e : Event) (c : JobState) → Missed c → Missed (effect i e c)
unfolding on_exit on_stamp on_announce subscribe release
effect-Missed i (starts now spawned id root command limit) c m = m
effect-Missed i (reads j chunk) c m =
    effect_at Missed (i == j) c _ m
      (λ _. let a = pump_chunk-Alike chunk c in (a.waiter ∙ m.0, a.done ∙ m.1))
effect-Missed i (exits j exit) c m =
    effect_at Missed (i == j) c _ m
      (λ _. let same : on_exit exit c ≡ c = rw m.0 refl in subst Missed (sym same) m)
effect-Missed i (stamps j now) c m =
    effect_at Missed (i == j) c _ m
      (λ _. let same : on_stamp now c ≡ c = rw m.0 refl in subst Missed (sym same) m)
effect-Missed i (announces j) c m =
    effect_at Missed (i == j) c _ m
      (λ _. let same : on_announce c ≡ c = rw m.0 refl in subst Missed (sym same) m)
effect-Missed i (subscribes j) c m = effect_at Missed (i == j) c _ m (λ _. m)
effect-Missed i (releases j) c m = effect_at Missed (i == j) c _ m (λ _. m)

pub effects-Missed :
    (i : ℕ) (events : List Event) (c : JobState) → Missed c → Missed (effects i events c)
effects-Missed i [] c m = m
effects-Missed i (e ∷ events) c m = effects-Missed i events (effect i e c) (effect-Missed i e c m)

on_exit-Heard : (exit : Result IoError (Option ℤ)) (c : JobState) → Heard c → Heard (on_exit exit c)
unfolding on_exit record_exit
on_exit-Heard exit c h = by_waiter c.waiter
  where
    by_waiter : (w : Waiter) → Heard (elim w [ waiting ↦ record_exit exit c | _ ↦ c ])
    by_waiter waiting = (h.0, λ e. cc)
    by_waiter recorded = h
    by_waiter stamped = h
    by_waiter announced = h

on_stamp-Heard : (now : Instant) (c : JobState) → Heard c → Heard (on_stamp now c)
unfolding on_stamp stamp
on_stamp-Heard now c h = by_waiter c.waiter
  where
    by_waiter : (w : Waiter) → Heard (elim w [ recorded ↦ stamp now c | _ ↦ c ])
    by_waiter waiting = h
    by_waiter recorded = (h.0, λ e. cc)
    by_waiter stamped = h
    by_waiter announced = h

on_announce-Heard : (c : JobState) → Heard c → Heard (on_announce c)
unfolding on_announce announce
on_announce-Heard c h = by_waiter c.waiter
  where
    some_receiver : (c.receivers == 0) ≡ false
    some_receiver = ground (arith, h.0)

    by_waiter : (w : Waiter) → Heard (elim w [ stamped ↦ announce c | _ ↦ c ])
    by_waiter waiting = h
    by_waiter recorded = h
    by_waiter stamped = (h.0, λ _. rw some_receiver refl)
    by_waiter announced = h

effect-Heard : (i : ℕ) (e : Event) (c : JobState) → Stays i e → Heard c → Heard (effect i e c)
unfolding subscribe
effect-Heard i (starts now spawned id root command limit) c s h = h
effect-Heard i (reads j chunk) c s h = effect_at Heard (i == j) c _ h (λ _.
    let a = pump_chunk-Alike chunk c in
    (subst (λ n. 1 ≤ n) (sym a.receivers) h.0, λ e. a.done ∙ h.1 (sym a.waiter ∙ e)))
effect-Heard i (exits j exit) c s h = effect_at Heard (i == j) c _ h (λ _. on_exit-Heard exit c h)
effect-Heard i (stamps j now) c s h = effect_at Heard (i == j) c _ h (λ _. on_stamp-Heard now c h)
effect-Heard i (announces j) c s h = effect_at Heard (i == j) c _ h (λ _. on_announce-Heard c h)
effect-Heard i (subscribes j) c s h = effect_at Heard (i == j) c _ h (λ _. (omega arith, h.1))
effect-Heard i (releases j) c s h =
    effect_at Heard (i == j) c _ h (λ here. let clash : true ≡ false = sym here ∙ s in cc)

pub effects-Heard :
    (i : ℕ) (events : List Event) (c : JobState)
    → All (Stays i) events
    → Heard c
    → Heard (effects i events c)
effects-Heard i [] c s h = h
effects-Heard i (e ∷ events) c (stays, s) h =
    effects-Heard i events (effect i e c) s (effect-Heard i e c stays h)
