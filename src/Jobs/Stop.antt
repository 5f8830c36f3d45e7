-- ===== src/Jobs/Stop.antt =====
-- src/exec_ops.rs: `stop`.
use local_mcp.Common.{ℕ, ◌≡◌, ◌↔◌, refl, sym, ap, true, Bool-cases, inl, inr, some}
use local_mcp.Common.Int.{ℤ}
use local_mcp.Common.Result.{ok, ok_or, ok_or-eq-ok, bind-eq-ok, err-ne-ok, ok-inj}
use local_mcp.Jobs.{
  Status, running, exited, signalled, Uuid, Waiter, waiting, recorded, stamped, announced, JobState,
  Jobs, get, is_running_status, is_running, group_of, stop_target,
}
use local_mcp.Jobs.Invariant.{Sane, Phase-at}
use local_mcp.Jobs.Reachable.{Inv}
use local_mcp.Jobs.Progress.{cell_at-Sane}
use local_mcp.Jobs.Found.{get-ok}

is_running-waiting : (c : JobState) → Sane c → is_running c ≡ true → c.waiter ≡ waiting
is_running-waiting c s h = by_waiter c.waiter refl
  where
    status : c.status.value ≡ running
    status = by_status c.status.value (rw s.status_free at h)
      where
        by_status : (x : Status) → is_running_status (some x) ≡ true → x ≡ running
        by_status running e = refl
        by_status (exited code) e = cc
        by_status signalled e = cc

    by_waiter : (w : Waiter) → c.waiter ≡ w → c.waiter ≡ waiting
    by_waiter waiting e = e
    by_waiter recorded e = absurd ((Phase-at c recorded s e).0 status)
    by_waiter stamped e = absurd ((Phase-at c stamped s e).0 status)
    by_waiter announced e = absurd ((Phase-at c announced s e).0 status)

waiting-is_running : (c : JobState) → Sane c → c.waiter ≡ waiting → is_running c ≡ true
waiting-is_running c s e = rw (s.status_free, (Phase-at c waiting s e).0) refl

-- A job that `stop` may signal: its exit has not been recorded, and it has the process.
pub record Stoppable (id : Uuid) (jobs : Jobs) (group : ℤ) : Type 0 where
  pub place : ℕ
  pub job : JobState
  pub named : get id jobs ≡ ok (place, job)
  pub unended : job.waiter ≡ waiting
  pub process : ℕ
  pub has_process : job.pid ≡ some process
  pub its_group : group ≡ group_of process

stop_target-Stoppable :
    (id : Uuid) (jobs : Jobs) (group : ℤ)
    → Inv jobs
    → stop_target id jobs ≡ ok group
    → Stoppable id jobs group
unfolding stop_target
stop_target-Stoppable id jobs group v h =
    let (found, named, rest) = bind-eq-ok (get id jobs) _ h in
    let f = get-ok id jobs found.0 found.1 named in
    let s = cell_at-Sane found.0 jobs.cells found.1 v.sane f.at in
    elim (Bool-cases (is_running found.1)) [
      | inr ended ↦ err-ne-ok _ _ (rw ended at rest)
      | inl runs ↦
          let (pid, has, made) = bind-eq-ok (ok_or _ found.1.pid) _ (rw runs at rest) in
          record {
            place = found.0;
            job = found.1;
            named = named;
            unended = is_running-waiting found.1 s runs;
            process = pid;
            has_process = ok_or-eq-ok _ _ has;
            its_group = sym (ok-inj made);
          }
    ]

Stoppable-stop_target :
    (id : Uuid) (jobs : Jobs) (group : ℤ)
    → Inv jobs
    → Stoppable id jobs group
    → stop_target id jobs ≡ ok group
unfolding stop_target
Stoppable-stop_target id jobs group v p =
    let f = get-ok id jobs p.place p.job p.named in
    let s = cell_at-Sane p.place jobs.cells p.job v.sane f.at in
    let runs = waiting-is_running p.job s p.unended in
    rw (p.named, runs, p.has_process) (ap ok (sym p.its_group))

-- `stop` signals exactly the process group of a job that the table names, that has a process, and
-- whose exit has not been recorded.
pub stop_target_iff :
    (id : Uuid) (jobs : Jobs) (group : ℤ)
    → Inv jobs
    → (stop_target id jobs ≡ ok group) ↔ Stoppable id jobs group
stop_target_iff id jobs group v =
    (stop_target-Stoppable id jobs group v, Stoppable-stop_target id jobs group v)
