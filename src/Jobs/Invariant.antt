-- ===== src/Jobs/Invariant.antt =====
-- src/exec_ops.rs: what holds of every job in every state that the program can reach.
use local_mcp.Common.{
  ℕ, ◌-◌, ◌≤◌, min, ◌≡◌, ◌≢◌, refl, sym, ap, subst, Bool, false, Bool-cases, inl, inr, Option, none,
  some, ◌++◌, leb, length, length-append, length-take, take, arith, if◌then◌else◌,
}
use local_mcp.Common.Int.{ℤ}
use local_mcp.Common.Str.{Str}
use local_mcp.Common.Result.{Result, ok, err}
use local_mcp.Root.{IoError}
use local_mcp.Jobs.{
  Status, running, Lock, Instant, Waiter, waiting, recorded, stamped, announced, JobState,
  pump_chunk, status_of, record_exit, stamp, announce, subscribe, release,
}
use local_mcp.Jobs.Events.{on_exit, on_stamp, on_announce}

-- What the three fields that the waiting task sets hold, by how far it has come: `done` is not set
-- before its third step.
abbrev pub Phase : Waiter → Status → Option Instant → Bool → Type 0
Phase waiting status at done = (status ≡ running) × (at ≡ none) × (done ≡ false)
Phase recorded status at done = (status ≢ running) × (at ≡ none) × (done ≡ false)
Phase stamped status at done = (status ≢ running) × ((t : Instant) × (at ≡ some t)) × (done ≡ false)
Phase announced status at done = (status ≢ running) × ((t : Instant) × (at ≡ some t))

pub record Sane (state : JobState) : Type 0 where
  pub output_free : state.output.poisoned ≡ false
  pub status_free : state.status.poisoned ≡ false
  pub finished_free : state.finished_at.poisoned ≡ false
  pub bounded : length state.output.value ≤ state.limit
  pub phase : Phase state.waiter state.status.value state.finished_at.value state.done

fits :
    (chunk out : Str) (limit : ℕ)
    → length out ≤ limit
    → length (out ++ take (min (length chunk) (limit - length out)) chunk) ≤ limit
fits chunk out limit h = omega (
  arith,
  length-append out (take (min (length chunk) (limit - length out)) chunk),
  length-take (min (length chunk) (limit - length out)) chunk,
  h,
)

pub pump_chunk-Sane : (chunk : Str) (state : JobState) → Sane state → Sane (pump_chunk chunk state)
unfolding pump_chunk
pump_chunk-Sane chunk state s = record {
  output_free = ground (arith, s.output_free);
  status_free = ground (arith, s.status_free);
  finished_free = ground (arith, s.finished_free);
  bounded = ground (arith, s.bounded, fits chunk state.output.value state.limit);
  phase = rw s.output_free (elim (Bool-cases (leb state.limit (length state.output.value))) [
    | inl full ↦ rw full s.phase
    | inr room ↦ rw room s.phase
  ]);
}

status_of-ends : (exit : Result IoError (Option ℤ)) → status_of exit ≢ running
status_of-ends (ok (some code)) e = cc
status_of-ends (ok none) e = cc
status_of-ends (err io) e = cc

-- The phase is stated at a waiter that is known.
pub Phase-at :
    (state : JobState) (w : Waiter)
    → Sane state
    → state.waiter ≡ w
    → Phase w state.status.value state.finished_at.value state.done
Phase-at state w s e =
    subst (λ v. Phase v state.status.value state.finished_at.value state.done) e s.phase

record_exit-Sane :
    (exit : Result IoError (Option ℤ)) (state : JobState)
    → Sane state
    → state.waiter ≡ waiting
    → Sane (record_exit exit state)
unfolding record_exit
record_exit-Sane exit state s e =
    let (_, unset, undone) = Phase-at state waiting s e in
    record {
      output_free = s.output_free;
      status_free = ground (arith, s.status_free);
      finished_free = s.finished_free;
      bounded = s.bounded;
      phase = (
        subst (λ (l : Lock Status). l.value ≢ running)
            (sym (
              ap (λ p. if p then state.status else record state.status { value = status_of exit })
                s.status_free))
            (status_of-ends exit),
        unset,
        undone,
      );
    }

stamp-Sane :
    (now : Instant) (state : JobState)
    → Sane state
    → state.waiter ≡ recorded
    → Sane (stamp now state)
unfolding stamp
stamp-Sane now state s e =
    let (ended, _, undone) = Phase-at state recorded s e in
    record {
      output_free = s.output_free;
      status_free = s.status_free;
      finished_free = ground (arith, s.finished_free);
      bounded = s.bounded;
      phase = (ended, (now, ground (arith, s.finished_free)), undone);
    }

announce-Sane : (state : JobState) → Sane state → state.waiter ≡ stamped → Sane (announce state)
unfolding announce
announce-Sane state s e =
    let (ended, set, _) = Phase-at state stamped s e in
    record {
      output_free = s.output_free;
      status_free = s.status_free;
      finished_free = s.finished_free;
      bounded = s.bounded;
      phase = (ended, set);
    }

pub on_exit-Sane :
    (exit : Result IoError (Option ℤ)) (state : JobState) → Sane state → Sane (on_exit exit state)
unfolding on_exit
on_exit-Sane exit state s = by_waiter state.waiter refl
  where
    by_waiter :
        (w : Waiter)
        → state.waiter ≡ w
        → Sane (elim w [ waiting ↦ record_exit exit state | _ ↦ state ])
    by_waiter waiting e = record_exit-Sane exit state s e
    by_waiter recorded e = s
    by_waiter stamped e = s
    by_waiter announced e = s

pub on_stamp-Sane : (now : Instant) (state : JobState) → Sane state → Sane (on_stamp now state)
unfolding on_stamp
on_stamp-Sane now state s = by_waiter state.waiter refl
  where
    by_waiter :
        (w : Waiter) → state.waiter ≡ w → Sane (elim w [ recorded ↦ stamp now state | _ ↦ state ])
    by_waiter waiting e = s
    by_waiter recorded e = stamp-Sane now state s e
    by_waiter stamped e = s
    by_waiter announced e = s

pub on_announce-Sane : (state : JobState) → Sane state → Sane (on_announce state)
unfolding on_announce
on_announce-Sane state s = by_waiter state.waiter refl
  where
    by_waiter :
        (w : Waiter) → state.waiter ≡ w → Sane (elim w [ stamped ↦ announce state | _ ↦ state ])
    by_waiter waiting e = s
    by_waiter recorded e = s
    by_waiter stamped e = announce-Sane state s e
    by_waiter announced e = s

-- Receivers that come and go change nothing else.
pub subscribe-Sane : (state : JobState) → Sane state → Sane (subscribe state)
unfolding subscribe
subscribe-Sane state s = record {
  output_free = s.output_free;
  status_free = s.status_free;
  finished_free = s.finished_free;
  bounded = s.bounded;
  phase = s.phase;
}

pub release-Sane : (state : JobState) → Sane state → Sane (release state)
unfolding release
release-Sane state s = record {
  output_free = s.output_free;
  status_free = s.status_free;
  finished_free = s.finished_free;
  bounded = s.bounded;
  phase = s.phase;
}
