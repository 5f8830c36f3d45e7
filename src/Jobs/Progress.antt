-- ===== src/Jobs/Progress.antt =====
-- src/exec_ops.rs: how one job changes while others come and go.
use local_mcp.Common.{
  ℕ, zero, suc, ◌-◌, min, ◌≡◌, ◌≢◌, refl, sym, ap, ◌∙◌, subst, ◌==◌, true, Bool-cases, inl, inr,
  Option, none, some, List, [], ◌∷◌, ◌++◌, append-nil, append_assoc, leb, length, take, All, arith,
}
use local_mcp.Common.Int.{ℤ}
use local_mcp.Common.Str.{Str}
use local_mcp.Common.Result.{Result}
use local_mcp.Root.{IoError}
use local_mcp.Jobs.{
  Status, running, Lock, Instant, Waiter, waiting, recorded, stamped, announced, JobState,
  pump_chunk, record_exit, stamp, announce, subscribe, release, cell_at, update_cell,
}
use local_mcp.Jobs.Events.{on_exit, on_stamp, on_announce}
use local_mcp.Jobs.Invariant.{Sane, Phase-at}

-- A job later: the same command, more output behind the old, and a status that is final once it is
-- not `running`, as are the time of the end and `done`.
pub record Evolves (c d : JobState) : Type 0 where
  pub command : d.command ≡ c.command
  pub pid : d.pid ≡ c.pid
  pub limit : d.limit ≡ c.limit
  pub more : Str
  pub output : d.output.value ≡ c.output.value ++ more
  pub status : c.status.value ≢ running → d.status ≡ c.status
  pub finished : (t : Instant) → c.finished_at.value ≡ some t → d.finished_at.value ≡ some t
  pub done : c.done ≡ true → d.done ≡ true

pub Evolves-refl : (c : JobState) → Evolves c c
Evolves-refl c = record {
  command = refl;
  pid = refl;
  limit = refl;
  more = [];
  output = sym (append-nil c.output.value);
  status = λ _. refl;
  finished = λ t h. h;
  done = λ h. h;
}

pub Evolves-trans : (c d e : JobState) → Evolves c d → Evolves d e → Evolves c e
Evolves-trans c d e p q = record {
  command = q.command ∙ p.command;
  pid = q.pid ∙ p.pid;
  limit = q.limit ∙ p.limit;
  more = p.more ++ q.more;
  output =
      q.output ∙ ap (λ (s : Str). s ++ q.more) p.output ∙ append_assoc c.output.value p.more q.more;
  status = λ ended.
      let same : d.status ≡ c.status = p.status ended in
      q.status (λ runs. ended (ap (λ (l : Lock Status). l.value) (sym same) ∙ runs)) ∙ same;
  finished = λ t h. q.finished t (p.finished t h);
  done = λ h. q.done (p.done h);
}

pub pump_chunk-Evolves : (chunk : Str) (c : JobState) → Sane c → Evolves c (pump_chunk chunk c)
unfolding pump_chunk
pump_chunk-Evolves chunk c s =
    rw s.output_free (elim (Bool-cases (leb c.limit (length c.output.value))) [
      | inl full ↦ rw full (Evolves-refl _)
      | inr room ↦ rw room (record {
        command = refl;
        pid = refl;
        limit = refl;
        more = take (min (length chunk) (c.limit - length c.output.value)) chunk;
        output = refl;
        status = λ _. refl;
        finished = λ t h. h;
        done = λ h. h;
      })
    ])

record_exit-Evolves :
    (exit : Result IoError (Option ℤ)) (c : JobState)
    → Sane c
    → c.waiter ≡ waiting
    → Evolves c (record_exit exit c)
unfolding record_exit
record_exit-Evolves exit c s e = record {
  command = refl;
  pid = refl;
  limit = refl;
  more = [];
  output = sym (append-nil c.output.value);
  status = λ ended. absurd (ended (Phase-at c waiting s e).0);
  finished = λ t h. h;
  done = λ h. h;
}

stamp-Evolves :
    (now : Instant) (c : JobState) → Sane c → c.waiter ≡ recorded → Evolves c (stamp now c)
unfolding stamp
stamp-Evolves now c s e =
    let (_, unset, _) = Phase-at c recorded s e in
    record {
      command = refl;
      pid = refl;
      limit = refl;
      more = [];
      output = sym (append-nil c.output.value);
      status = λ _. refl;
      finished = λ t h. let clash : none ≡ some t = sym unset ∙ h in cc;
      done = λ h. h;
    }

announce-Evolves : (c : JobState) → Evolves c (announce c)
unfolding announce
announce-Evolves c = record {
  command = refl;
  pid = refl;
  limit = refl;
  more = [];
  output = sym (append-nil c.output.value);
  status = λ _. refl;
  finished = λ t h. h;
  done = λ h. elim (Bool-cases (c.receivers == 0)) [
    | inl alone ↦ rw alone h
    | inr heard ↦ rw heard refl
  ];
}

pub subscribe-Evolves : (c : JobState) → Evolves c (subscribe c)
unfolding subscribe
subscribe-Evolves c = record {
  command = refl;
  pid = refl;
  limit = refl;
  more = [];
  output = sym (append-nil c.output.value);
  status = λ _. refl;
  finished = λ t h. h;
  done = λ h. h;
}

pub release-Evolves : (c : JobState) → Evolves c (release c)
unfolding release
release-Evolves c = record {
  command = refl;
  pid = refl;
  limit = refl;
  more = [];
  output = sym (append-nil c.output.value);
  status = λ _. refl;
  finished = λ t h. h;
  done = λ h. h;
}

pub on_exit-Evolves :
    (exit : Result IoError (Option ℤ)) (c : JobState) → Sane c → Evolves c (on_exit exit c)
unfolding on_exit
on_exit-Evolves exit c s = by_waiter c.waiter refl
  where
    by_waiter :
        (w : Waiter) → c.waiter ≡ w → Evolves c (elim w [ waiting ↦ record_exit exit c | _ ↦ c ])
    by_waiter waiting e = record_exit-Evolves exit c s e
    by_waiter recorded e = Evolves-refl c
    by_waiter stamped e = Evolves-refl c
    by_waiter announced e = Evolves-refl c

pub on_stamp-Evolves : (now : Instant) (c : JobState) → Sane c → Evolves c (on_stamp now c)
unfolding on_stamp
on_stamp-Evolves now c s = by_waiter c.waiter refl
  where
    by_waiter : (w : Waiter) → c.waiter ≡ w → Evolves c (elim w [ recorded ↦ stamp now c | _ ↦ c ])
    by_waiter waiting e = Evolves-refl c
    by_waiter recorded e = stamp-Evolves now c s e
    by_waiter stamped e = Evolves-refl c
    by_waiter announced e = Evolves-refl c

pub on_announce-Evolves : (c : JobState) → Sane c → Evolves c (on_announce c)
unfolding on_announce
on_announce-Evolves c s = by_waiter c.waiter
  where
    by_waiter : (w : Waiter) → Evolves c (elim w [ stamped ↦ announce c | _ ↦ c ])
    by_waiter waiting = Evolves-refl c
    by_waiter recorded = Evolves-refl c
    by_waiter stamped = announce-Evolves c
    by_waiter announced = Evolves-refl c

-- The job at a place, later.
pub record Carried (i : ℕ) (c : JobState) (cells : List JobState) : Type 0 where
  pub later : JobState
  pub at : cell_at i cells ≡ some later
  pub evolves : Evolves c later

pub Carried-refl :
    (i : ℕ) (c : JobState) (cells : List JobState) → cell_at i cells ≡ some c → Carried i c cells
Carried-refl i c cells h = record { later = c; at = h; evolves = Evolves-refl c }

pub update_cell-Carried :
    (i j : ℕ) (f : JobState → JobState) (cells : List JobState) (c : JobState)
    → cell_at i cells ≡ some c
    → Evolves c (f c)
    → Carried i c (update_cell j f cells)
unfolding cell_at update_cell
update_cell-Carried i j f [] c h k = cc
update_cell-Carried zero zero f (x ∷ cells) c h k = record {
  later = f c;
  at = ap (λ (o : Option JobState). elim o [ none ↦ none | some y ↦ some (f y) ]) h;
  evolves = k;
}
update_cell-Carried zero (suc j) f (x ∷ cells) c h k =
    Carried-refl zero c (x ∷ update_cell j f cells) h
update_cell-Carried (suc i) zero f (x ∷ cells) c h k = Carried-refl (suc i) c (f x ∷ cells) h
update_cell-Carried (suc i) (suc j) f (x ∷ cells) c h k =
    let p = update_cell-Carried i j f cells c h k in
    record { later = p.later; at = p.at; evolves = p.evolves }

pub cell_at-append :
    (i : ℕ) (cells more : List JobState) (c : JobState)
    → cell_at i cells ≡ some c
    → cell_at i (cells ++ more) ≡ some c
unfolding cell_at
cell_at-append i [] more c h = cc
cell_at-append zero (x ∷ cells) more c h = h
cell_at-append (suc i) (x ∷ cells) more c h = cell_at-append i cells more c h

pub cell_at-Sane :
    (i : ℕ) (cells : List JobState) (c : JobState)
    → All Sane cells
    → cell_at i cells ≡ some c
    → Sane c
unfolding cell_at
cell_at-Sane i [] c h e = cc
cell_at-Sane zero (x ∷ cells) c (s, h) e = subst Sane (ground (arith, e)) s
cell_at-Sane (suc i) (x ∷ cells) c (s, h) e = cell_at-Sane i cells c h e
