-- ===== src/Jobs/Calls.antt =====
-- src/exec_ops.rs: the table of ids: `get`, `reap`, `start` and `poll`.
use local_mcp.Common.{
  ℕ, ◌-◌, ◌<◌, ◌≡◌, refl, sym, ap, ◌∙◌, subst, Bool, true, false, Bool-cases, inl, inr, Option,
  some, some-inj, List, [], ◌∷◌, ◌++◌, ◌==◌, ltb→lt, length, All, arith,
}
use local_mcp.Common.Str.{Str}
use local_mcp.Common.Utf8.{from_utf8_lossy, lossy}
use local_mcp.Common.Result.{Result, ok, ◌>>=◌}
use local_mcp.FilePath.{PathBuf}
use local_mcp.Root.{IoError, Root}
use local_mcp.Store.Clock.{Duration}
use local_mcp.Jobs.{
  running, Instant, Uuid, JobState, Jobs, Finished, cell_at, is_kept, kept_at, retain, reap, lookup,
  insert, get, snapshot, fresh_state, enter, start, poll,
}
use local_mcp.Jobs.Events.{Event, run}
use local_mcp.Jobs.Reachable.{Inv, reap-Inv, run-Inv}
use local_mcp.Jobs.Progress.{Evolves, cell_at-Sane}
use local_mcp.Jobs.Lasting.{Spares, run-Carried, run-lookup}
use local_mcp.Jobs.Found.{Found, get-ok, get_of_Found}

-- An id goes on to name its job, which only evolves, as long as no start draws the same id again and
-- none comes the retention or more after the end of the job: a job that has not ended is never
-- forgotten.
pub get-run :
    (events : List Event) (jobs : Jobs) (id : Uuid) (i : ℕ) (c d : JobState)
    → Inv jobs
    → get id jobs ≡ ok (i, c)
    → cell_at i (run events jobs).cells ≡ some d
    → All (Spares id jobs.retention d.finished_at.value) events
    → (get id (run events jobs) ≡ ok (i, d)) × Evolves c d
get-run events jobs id i c d v h end spared =
    let f = get-ok id jobs i c h in
    let p = run-Carried events jobs i c v f.at in
    let same : p.later ≡ d = some-inj _ _ (sym p.at ∙ end) in
    (
      get_of_Found id (run events jobs) i d (record {
        free = (run-Inv events jobs v).table_free;
        named = run-lookup events jobs id i c d v f.named f.at end spared;
        at = end;
      }),
      subst (Evolves c) same p.evolves,
    )

lookup-retain-kept :
    (id : Uuid) (keep : ℕ → Bool) (table : List (Uuid × ℕ)) (i : ℕ)
    → lookup id (retain keep table) ≡ some i
    → keep i ≡ true
unfolding lookup retain
lookup-retain-kept id keep [] i h = cc
lookup-retain-kept id keep ((key, j) ∷ table) i h = elim (Bool-cases (keep j)) [
  | inr goes ↦ lookup-retain-kept id keep table i (rw (goes, retain) at h)
  | inl stays ↦ elim (Bool-cases (key == id)) [
    | inl here ↦
        let same : some j ≡ some i = rw (stays, retain, here, lookup) at h in
        subst (λ k. keep k ≡ true) (some-inj j i same) stays
    | inr there ↦ lookup-retain-kept id keep table i (rw (stays, retain, there, lookup) at h)
  ]
]

is_kept-finished :
    (now : Instant) (retention : Duration) (c : JobState) (t : Instant)
    → c.finished_at.poisoned ≡ false
    → is_kept now retention c ≡ true
    → c.finished_at.value ≡ some t
    → now - t < retention
unfolding is_kept
is_kept-finished now retention c t free kept set =
    ltb→lt (now - t) retention (rw (free, set) at kept)

-- In the table that a reaping leaves, no id names a job that ended the retention or more ago.
pub get-reap :
    (now : Instant) (jobs : Jobs) (id : Uuid) (i : ℕ) (c : JobState) (t : Instant)
    → Inv jobs
    → get id (reap now jobs) ≡ ok (i, c)
    → c.finished_at.value ≡ some t
    → now - t < jobs.retention
unfolding reap
get-reap now jobs id i c t v h set =
    let f = get-ok id (reap now jobs) i c h in
    let kept : kept_at now jobs.retention jobs.cells i ≡ true =
      lookup-retain-kept id (kept_at now jobs.retention jobs.cells) jobs.inner.value i
        (rw v.table_free at f.named) in
    is_kept-finished now jobs.retention c t (cell_at-Sane i jobs.cells c v.sane f.at).finished_free
      (rw (f.at, kept_at) at kept) set

cell_at_end :
    (cells : List JobState) (c : JobState) → cell_at (length cells) (cells ++ c ∷ []) ≡ some c
unfolding cell_at
cell_at_end [] c = refl
cell_at_end (x ∷ cells) c = cell_at_end cells c

lookup-insert :
    (id : Uuid) (i : ℕ) (table : List (Uuid × ℕ)) → lookup id (insert id i table) ≡ some i
unfolding lookup insert
lookup-insert id i [] = ground arith
lookup-insert id i ((key, j) ∷ table) = ground (arith, lookup-insert id i table)

enter-Found :
    (id : Uuid) (state : JobState) (jobs : Jobs)
    → jobs.inner.poisoned ≡ false
    → ((enter id state jobs).0 ≡ ok id) × Found id (enter id state jobs).1 (length jobs.cells) state
unfolding enter
enter-Found id state jobs free = rw free (
  refl,
  record {
    free = refl;
    named = lookup-insert id (length jobs.cells) jobs.inner.value;
    at = cell_at_end jobs.cells state;
  },
)

fresh-polled :
    (command : Str) (limit : ℕ) (pid : Option ℕ)
    → ((fresh_state command limit pid).command ≡ command)
      × (snapshot (fresh_state command limit pid) ≡ record { status = running; output = [] })
unfolding fresh_state snapshot from_utf8_lossy lossy
fresh-polled command limit pid = (refl, refl)

-- What `start` leaves where the process could be created.
pub start-Found :
    (now : Instant) (spawn : PathBuf → Str → Result IoError (Option ℕ)) (id : Uuid) (root : Root)
    (command : Str) (limit : ℕ) (jobs : Jobs) (pid : Option ℕ)
    → Inv jobs
    → spawn root.path command ≡ ok pid
    → ((start now spawn id root command limit jobs).0 ≡ ok id)
      × Found id
          (start now spawn id root command limit jobs).1
          (length jobs.cells)
          (fresh_state command limit pid)
unfolding start reap
start-Found now spawn id root command limit jobs pid v spawned =
    let (answered, found) =
      enter-Found id (fresh_state command limit pid) (reap now jobs)
        (reap-Inv now jobs v).table_free in
    rw spawned (answered, found)

-- A command that was started answers with its id, and the id at once names a running job with the
-- command and no output.
pub poll-start :
    (now : Instant) (spawn : PathBuf → Str → Result IoError (Option ℕ)) (id : Uuid) (root : Root)
    (command : Str) (limit : ℕ) (jobs : Jobs) (pid : Option ℕ)
    → Inv jobs
    → spawn root.path command ≡ ok pid
    → ((start now spawn id root command limit jobs).0 ≡ ok id)
      × (poll id (start now spawn id root command limit jobs).1
          ≡ ok (command, record { status = running; output = [] }))
unfolding poll
poll-start now spawn id root command limit jobs pid v spawned =
    let (answered, found) = start-Found now spawn id root command limit jobs pid v spawned in
    let (same, empty) = fresh-polled command limit pid in
    (
      answered,
      ap (λ r. r >>= λ job. ok (job.1.command, snapshot job.1)) (get_of_Found id _ _ _ found)
          ∙ ap (λ (x : Str × Finished). ok x) (λ k. (same k, empty k)),
    )
