-- ===== src/Jobs/Found.antt =====
-- src/exec_ops.rs: `get`, by what it finds.
use local_mcp.Common.{ℕ, ◌≡◌, refl, subst, false, Bool-cases, inl, inr, some, Option-cases}
use local_mcp.Common.Result.{ok, err-ne-ok, ok-inj}
use local_mcp.Jobs.{Uuid, JobState, Jobs, JobError, cell_at, lookup, get}

-- What `get` has found, and when it finds.
pub record Found (id : Uuid) (jobs : Jobs) (i : ℕ) (c : JobState) : Type 0 where
  pub free : jobs.inner.poisoned ≡ false
  pub named : lookup id jobs.inner.value ≡ some i
  pub at : cell_at i jobs.cells ≡ some c

pub get-ok :
    (id : Uuid) (jobs : Jobs) (i : ℕ) (c : JobState) → get id jobs ≡ ok (i, c) → Found id jobs i c
unfolding get
get-ok id jobs i c h = elim (Bool-cases jobs.inner.poisoned) [
  | inl lost ↦ err-ne-ok _ _ (rw lost at h)
  | inr free ↦ elim (Option-cases (lookup id jobs.inner.value)) [
    | inl missing ↦ err-ne-ok _ _ (rw (free, missing) at h)
    | inr (j, named) ↦ elim (Option-cases (cell_at j jobs.cells)) [
      | inl gone ↦ err-ne-ok _ _ (rw (free, named, gone) at h)
      | inr (s, at) ↦
          let same = ok-inj {E = JobError} {a = (j, s)} (rw (free, named, at) at h) in
          record {
            free = free;
            named = subst (λ (x : ℕ × JobState). lookup id jobs.inner.value ≡ some x.0) same named;
            at = subst (λ (x : ℕ × JobState). cell_at x.0 jobs.cells ≡ some x.1) same at;
          }
    ]
  ]
]

pub get_of_Found :
    (id : Uuid) (jobs : Jobs) (i : ℕ) (c : JobState) → Found id jobs i c → get id jobs ≡ ok (i, c)
unfolding get
get_of_Found id jobs i c f = rw (f.free, f.named, f.at) refl
