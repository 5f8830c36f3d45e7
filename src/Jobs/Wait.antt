-- ===== src/Jobs/Wait.antt =====
-- src/exec_ops.rs: `wait`.
use local_mcp.Common.{
  ℕ, ◌≡◌, ◌≢◌, ◌⊎◌, refl, sym, ap, ◌∙◌, subst, true, false, Bool-cases, inl, inr, Option, none,
  some, some-inj, List, ◌++◌, ◌==◌, All, arith, if◌then◌else◌,
}
use local_mcp.Common.Str.{Str}
use local_mcp.Common.Utf8.{from_utf8_lossy}
use local_mcp.Common.Result.{Result, ok, err}
use local_mcp.Jobs.{
  Status, running, Lock, Uuid, Waiter, waiting, recorded, stamped, announced, JobState, Jobs,
  JobError, cell_at, on_cell, get, snapshot, subscribe, release, is_done, waited, watched, listened,
  wait,
}
use local_mcp.Jobs.Events.{Event, run}
use local_mcp.Jobs.Invariant.{Sane, Phase-at, subscribe-Sane, release-Sane}
use local_mcp.Jobs.Reachable.{Inv, run-Inv, on_cell-Inv}
use local_mcp.Jobs.Progress.{cell_at-Sane}
use local_mcp.Jobs.Lasting.{run-Carried}
use local_mcp.Jobs.Found.{get-ok}
use local_mcp.Jobs.Effect.{
  Stays, Missed, Heard, effects, cell_at-run, cell_at-update_cell, effects-Missed, effects-Heard,
}

announced_of_done : (d : JobState) → Sane d → d.done ≡ true → d.waiter ≡ announced
announced_of_done d s e = by_waiter d.waiter refl
  where
    by_waiter : (w : Waiter) → d.waiter ≡ w → d.waiter ≡ announced
    by_waiter waiting h = let clash : true ≡ false = sym e ∙ (Phase-at d waiting s h).2 in cc
    by_waiter recorded h = let clash : true ≡ false = sym e ∙ (Phase-at d recorded s h).2 in cc
    by_waiter stamped h = let clash : true ≡ false = sym e ∙ (Phase-at d stamped s h).2 in cc
    by_waiter announced h = h

snapshot-Sane :
    (d : JobState)
    → Sane d
    → snapshot d ≡ record { status = d.status.value; output = from_utf8_lossy d.output.value }
unfolding snapshot
snapshot-Sane d s = rw (s.status_free, s.output_free) refl

-- A subscription comes too late, or hears of the end.
subscribe_cases : (c : JobState) → Missed c ⊎ Heard (subscribe c)
unfolding subscribe
subscribe_cases c = by_waiter c.waiter refl
  where
    open_still : c.waiter ≢ announced → Heard (subscribe c)
    open_still other = (omega arith, λ e. absurd (other e))

    by_waiter : (w : Waiter) → c.waiter ≡ w → Missed c ⊎ Heard (subscribe c)
    by_waiter waiting h = inr (open_still (λ e. let clash : waiting ≡ announced = sym h ∙ e in cc))
    by_waiter recorded h =
        inr (open_still (λ e. let clash : recorded ≡ announced = sym h ∙ e in cc))
    by_waiter stamped h = inr (open_still (λ e. let clash : stamped ≡ announced = sym h ∙ e in cc))
    by_waiter announced h = elim (Bool-cases c.done) [
      | inl done ↦ inr (omega arith, λ _. done)
      | inr undone ↦ inl (h, undone)
    ]

not-Missed : (c : JobState) → Heard (subscribe c) → ¬ (Missed c)
unfolding subscribe
not-Missed c h m = let clash : false ≡ true = sym m.1 ∙ h.1 m.0 in cc

subscribe-Missed : (c : JobState) → Missed c → Missed (subscribe c)
unfolding subscribe
subscribe-Missed c m = m

waited_done : (d e : JobState) → d.done ≡ true → waited (some d) (some e) ≡ some (snapshot e)
waited_done d e done = ap (λ b. if b then some (snapshot e) else none) done

waited_undone : (d : JobState) (o : Option JobState) → d.done ≡ false → waited (some d) o ≡ none
waited_undone d none undone = refl
waited_undone d (some e) undone = ap (λ b. if b then some (snapshot e) else none) undone

-- The end of a wait, by the job when it is over.
module _ (i : ℕ) (later : List Event) (middle : Jobs) (v : Inv middle) (d : JobState)
    (at : cell_at i middle.cells ≡ some d) where
  watched_at :
      (watched i (run later) middle).0
      ≡ ok (waited (some d) (cell_at i (if d.done then run later middle else middle).cells))
  watched_at = rw at refl

  watched_done :
      d.done ≡ true
      → (d.status.value ≢ running)
        × ((more : Str) × ((watched i (run later) middle).0
              ≡ ok (
                  some (record {
                    status = d.status.value;
                    output = from_utf8_lossy (d.output.value ++ more);
                  }))))
  watched_done done =
      let sd = cell_at-Sane i middle.cells d v.sane at in
      let ended = (Phase-at d announced sd (announced_of_done d sd done)).0 in
      let p = run-Carried later middle i d v at in
      let ev = p.evolves in
      let se = cell_at-Sane i (run later middle).cells p.later (run-Inv later middle v).sane p.at in
      (
        ended,
        (
          ev.more,
          watched_at
              ∙ ap
                  (λ b.
                    ok (waited (some d) (cell_at i (if b then run later middle else middle).cells)))
                  done
              ∙ ap (λ o. ok (waited (some d) o)) p.at
              ∙ ap ok (waited_done d p.later done ∙ ap some (snapshot-Sane p.later se))
              ∙ rw ev.output (
                  ap
                    (λ (l : Lock Status). ok (
                      some (record {
                        status = l.value;
                        output = from_utf8_lossy (d.output.value ++ ev.more);
                      })))
                    (ev.status ended)),
        ),
      )

  watched_undone : d.done ≡ false → (watched i (run later) middle).0 ≡ ok none
  watched_undone undone = watched_at ∙ ap ok (waited_undone d _ undone)

-- The job that is waited for.
module _ (id : Uuid) (jobs : Jobs) (i : ℕ) (c : JobState) (during later : List Event) (v : Inv jobs)
    (named : get id jobs ≡ ok (i, c)) where
  abbrev middle : Jobs
  middle = run during (on_cell i subscribe jobs)

  middle-Inv : Inv middle
  middle-Inv = run-Inv during _ (on_cell-Inv i subscribe jobs subscribe-Sane v)

  middle_at : cell_at i middle.cells ≡ some (effects i during (subscribe c))
  middle_at =
      let here : (i == i) ≡ true = ground arith in
      let at : cell_at i (on_cell i subscribe jobs).cells ≡ some (subscribe c) =
        rw here at (cell_at-update_cell i i subscribe jobs.cells c (get-ok id jobs i c named).at) in
      cell_at-run during (on_cell i subscribe jobs) i (subscribe c) at

  wait-watched : wait id (run during) (run later) jobs ≡ watched i (run later) middle
  unfolding wait
  wait-watched = ap (listened (run during) (run later) jobs) named

  -- A wait for a job that its id names, in a table that the operations can reach, where no other
  -- wait for it ends meanwhile. If the task of the job made its last step before, with nobody to
  -- hear it, the wait answers with nothing, whatever happens. Otherwise it answers with nothing
  -- exactly where the task has not made its last step when the wait is over; and where it has, with
  -- the final status, which is not `running`, and at least the output there was.
  pub wait_lem :
      (d : JobState)
      → cell_at i middle.cells ≡ some d
      → All (Stays i) during
      → (¬ (Missed c)
          × (d.waiter ≡ announced)
          × (d.status.value ≢ running)
          × ((more : Str) × ((wait id (run during) (run later) jobs).0
                ≡ ok (
                    some (record {
                      status = d.status.value;
                      output = from_utf8_lossy (d.output.value ++ more);
                    })))))
        ⊎ ((Missed c ⊎ (d.waiter ≢ announced))
            × ((wait id (run during) (run later) jobs).0 ≡ ok none))
  wait_lem d at stays =
      let same : effects i during (subscribe c) ≡ d = some-inj _ _ (sym middle_at ∙ at) in
      let nothing : d.done ≡ false → (wait id (run during) (run later) jobs).0 ≡ ok none = λ undone.
        ap (λ r. r.0) wait-watched ∙ watched_undone i later middle middle-Inv d at undone in
      elim (subscribe_cases c) [
        | inl missed ↦
            let m = effects-Missed i during (subscribe c) (subscribe-Missed c missed) in
            inr (inl missed, nothing (subst (λ (x : JobState). x.done ≡ false) same m.1))
        | inr hears ↦
            let h : Heard d = subst Heard same (effects-Heard i during (subscribe c) stays hears) in
            elim (Bool-cases d.done) [
              | inr undone ↦
                  inr (
                    inr (λ e. let clash : true ≡ false = sym (h.1 e) ∙ undone in cc),
                    nothing undone,
                  )
              | inl done ↦
                  let sd = cell_at-Sane i middle.cells d middle-Inv.sane at in
                  let (ended, (more, answer)) = watched_done i later middle middle-Inv d at done in
                  inl (
                    not-Missed c hears,
                    announced_of_done d sd done,
                    ended,
                    (more, ap (λ r. r.0) wait-watched ∙ answer),
                  )
            ]
      ]

watched-Inv :
    (i : ℕ) (later : List Event) (middle : Jobs) → Inv middle → Inv (watched i (run later) middle).1
watched-Inv i later middle v =
    on_cell-Inv i release _ release-Sane (elim (Bool-cases (is_done (cell_at i middle.cells))) [
      | inl done ↦ rw done (run-Inv later middle v)
      | inr undone ↦ rw undone v
    ])

pub wait-Inv :
    (id : Uuid) (during later : List Event) (jobs : Jobs)
    → Inv jobs
    → Inv (wait id (run during) (run later) jobs).1
unfolding wait
wait-Inv id during later jobs v = by_job (get id jobs)
  where
    by_job : (r : Result JobError (ℕ × JobState)) → Inv (listened (run during) (run later) jobs r).1
    by_job (err e) = v
    by_job (ok job) =
        watched-Inv job.0 later _
          (run-Inv during _ (on_cell-Inv job.0 subscribe jobs subscribe-Sane v))
