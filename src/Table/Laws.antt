-- ===== src/Table/Laws.antt =====
-- How lookups by key go through the statements, and that these keep the primary key.
use mathlib.Core.Option
use local_mcp.Common.{
  ◌+◌, ◌≤◌, ◌<◌, ◌≡◌, refl, Bool, Option, none, some, List, [], ◌∷◌, ◌++◌, arith, length,
  if◌then◌else◌,
}
use local_mcp.Common.Eq.{Eq}
use local_mcp.Table.{
  find, erase, update, insert, insert_or_ignore, upsert, IsKeyed, delete_where, count_where,
}

-- A row that the statement leaves.
abbrev pub unless : {R : Type 0} → (R → Bool) → Option R → Option R
unless stale none = none
unless stale (some r) = if stale r then none else some r

module _ {R K : Type 0} ⦃e : Eq K⦄ (key : R → K) where
  pub find-eq-some : (k : K) (rows : List R) (r : R) → find key k rows ≡ some r → key r ≡ k
  unfolding find
  find-eq-some k [] r h = cc
  find-eq-some k (s ∷ rows) r h = ground (arith, e.beq_iff (key s) k, find-eq-some k rows r)

  pub find-append_one :
      (k : K) (rows : List R) (r : R)
      → find key k rows ≡ none
      → find key k (rows ++ r ∷ []) ≡ (if e.beq (key r) k then some r else none)
  unfolding find
  find-append_one k [] r h = refl
  find-append_one k (s ∷ rows) r h = ground (arith, find-append_one k rows r)

  pub find-append_old :
      (k : K) (rows : List R) (r s : R)
      → find key k rows ≡ some s
      → find key k (rows ++ r ∷ []) ≡ some s
  unfolding find
  find-append_old k [] r s h = cc
  find-append_old k (t ∷ rows) r s h = ground (arith, find-append_old k rows r s)

  pub find-append_new :
      (k : K) (rows : List R) (r : R)
      → find key (key r) rows ≡ none
      → find key k (rows ++ r ∷ []) ≡ (if e.beq (key r) k then some r else find key k rows)
  unfolding find
  find-append_new k [] r h = refl
  find-append_new k (s ∷ rows) r h = ground (
    arith,
    find-append_new k rows r,
    e.beq_iff (key s) k,
    e.beq_iff (key s) (key r),
    e.beq_iff (key r) k,
  )

  pub find-erase :
      (j k : K) (rows : List R)
      → find key j (erase key k rows) ≡ (if e.beq k j then none else find key j rows)
  unfolding find erase
  find-erase j k [] = ground arith
  find-erase j k (s ∷ rows) =
      ground (arith, find-erase j k rows, e.beq_iff (key s) k, e.beq_iff (key s) j, e.beq_iff k j)

  pub find-upsert :
      (j : K) (r : R) (rows : List R)
      → find key j (upsert key r rows) ≡ (if e.beq (key r) j then some r else find key j rows)
  unfolding find upsert
  find-upsert j r [] = refl
  find-upsert j r (s ∷ rows) = ground (
    arith,
    find-upsert j r rows,
    e.beq_iff (key s) (key r),
    e.beq_iff (key s) j,
    e.beq_iff (key r) j,
  )

  pub find-update :
      (j k : K) (f : R → R) (rows : List R)
      → ((r : R) → key (f r) ≡ key r)
      → find key j (update key k f rows)
        ≡ (if e.beq k j then Option.map f (find key j rows) else find key j rows)
  unfolding find update
  find-update j k f [] same = ground arith
  find-update j k f (s ∷ rows) same = ground (
    arith,
    find-update j k f rows same,
    same s,
    e.beq_iff (key s) k,
    e.beq_iff (key s) j,
    e.beq_iff k j,
  )

  pub find-delete_where-none :
      (k : K) (stale : R → Bool) (rows : List R)
      → find key k rows ≡ none
      → find key k (delete_where stale rows) ≡ none
  unfolding find delete_where
  find-delete_where-none k stale [] h = refl
  find-delete_where-none k stale (s ∷ rows) h = ground (arith, find-delete_where-none k stale rows)

  pub find-delete_where :
      (k : K) (stale : R → Bool) (rows : List R)
      → IsKeyed key rows
      → find key k (delete_where stale rows) ≡ unless stale (find key k rows)
  unfolding find delete_where
  find-delete_where k stale [] u = refl
  find-delete_where k stale (s ∷ rows) (fresh, u) = ground (
    arith,
    find-delete_where k stale rows u,
    find-delete_where-none k stale rows,
    e.beq_iff (key s) k,
  )

  pub IsKeyed-append_one :
      (rows : List R) (r : R)
      → find key (key r) rows ≡ none
      → IsKeyed key rows
      → IsKeyed key (rows ++ r ∷ [])
  unfolding find
  IsKeyed-append_one [] r h u = (refl, tt)
  IsKeyed-append_one (s ∷ rows) r h (fresh, u) = ground (
    arith,
    IsKeyed-append_one rows r,
    find-append_one (key s) rows r,
    e.beq_iff (key s) (key r),
    e.beq_iff (key r) (key s),
  )

  pub insert-IsKeyed :
      (r : R) (rows rows' : List R)
      → insert key r rows ≡ some rows'
      → IsKeyed key rows
      → IsKeyed key rows'
  unfolding insert
  insert-IsKeyed r rows rows' h u = ground (arith, IsKeyed-append_one rows r)

  pub insert_or_ignore-IsKeyed :
      (r : R) (rows : List R) → IsKeyed key rows → IsKeyed key (insert_or_ignore key r rows)
  unfolding insert_or_ignore
  insert_or_ignore-IsKeyed r rows u = ground (arith, IsKeyed-append_one rows r)

  pub erase-IsKeyed : (k : K) (rows : List R) → IsKeyed key rows → IsKeyed key (erase key k rows)
  unfolding erase
  erase-IsKeyed k [] u = tt
  erase-IsKeyed k (s ∷ rows) (fresh, u) =
      ground (arith, erase-IsKeyed k rows u, find-erase (key s) k rows)

  pub delete_where-IsKeyed :
      (stale : R → Bool) (rows : List R) → IsKeyed key rows → IsKeyed key (delete_where stale rows)
  unfolding delete_where
  delete_where-IsKeyed stale [] u = tt
  delete_where-IsKeyed stale (s ∷ rows) (fresh, u) =
      ground (arith, delete_where-IsKeyed stale rows u, find-delete_where-none (key s) stale rows)

  pub upsert-IsKeyed : (r : R) (rows : List R) → IsKeyed key rows → IsKeyed key (upsert key r rows)
  unfolding upsert find
  upsert-IsKeyed r [] u = (refl, tt)
  upsert-IsKeyed r (s ∷ rows) (fresh, u) = ground (
    arith,
    upsert-IsKeyed r rows u,
    find-upsert (key s) r rows,
    e.beq_iff (key s) (key r),
    e.beq_iff (key r) (key s),
  )

  pub length-erase : (k : K) (rows : List R) → length (erase key k rows) ≤ length rows
  unfolding erase
  length-erase k [] = omega arith
  length-erase k (s ∷ rows) = ground (arith, length-erase k rows)

  pub length-erase_found :
      (k : K) (rows : List R) (r : R)
      → find key k rows ≡ some r
      → length (erase key k rows) < length rows
  unfolding find erase
  length-erase_found k [] r h = cc
  length-erase_found k (s ∷ rows) r h =
      ground (arith, length-erase k rows, length-erase_found k rows r)

  pub update-IsKeyed :
      (k : K) (f : R → R) (rows : List R)
      → ((r : R) → key (f r) ≡ key r)
      → IsKeyed key rows
      → IsKeyed key (update key k f rows)
  unfolding update
  update-IsKeyed k f [] same u = tt
  update-IsKeyed k f (s ∷ rows) same (fresh, u) =
      ground (arith, update-IsKeyed k f rows same u, same s, find-update (key s) k f rows same)

module _ {R : Type 0} where
  pub length-delete_where :
      (stale : R → Bool) (rows : List R)
      → length (delete_where stale rows) + count_where stale rows ≡ length rows
  unfolding delete_where count_where
  length-delete_where stale [] = omega arith
  length-delete_where stale (s ∷ rows) = ground (arith, length-delete_where stale rows)
