-- ===== src/Table.antt =====
-- The rows of an SQL table with a primary key, and what the statements of src/store.rs do to them.
pub mod Laws
use local_mcp.Common.{
  ℕ, zero, suc, ◌≡◌, Bool, true, false, Option, none, some, List, [], ◌∷◌, ◌++◌, if◌then◌else◌,
}
use local_mcp.Common.Eq.{Eq}

module _ {R K : Type 0} ⦃e : Eq K⦄ (key : R → K) where
  -- `SELECT ... WHERE key = k`
  unfoldable pub find : K → List R → Option R
  find k [] = none
  find k (r ∷ rows) = if e.beq (key r) k then some r else find k rows

  -- `DELETE ... WHERE key = k`
  unfoldable pub erase : K → List R → List R
  erase k [] = []
  erase k (r ∷ rows) = let rest = erase k rows in if e.beq (key r) k then rest else r ∷ rest

  -- `UPDATE ... WHERE key = k`
  unfoldable pub update : K → (R → R) → List R → List R
  update k f [] = []
  update k f (r ∷ rows) =
      let rest = update k f rows in if e.beq (key r) k then f r ∷ rest else r ∷ rest

  -- A plain `INSERT`: it fails where the key is taken.
  unfoldable pub insert : R → List R → Option (List R)
  unfolding find
  insert r rows = elim (find (key r) rows) [ none ↦ some (rows ++ r ∷ []) | some _ ↦ none ]

  -- `INSERT OR IGNORE`
  unfoldable pub insert_or_ignore : R → List R → List R
  unfolding find
  insert_or_ignore r rows = elim (find (key r) rows) [ none ↦ rows ++ r ∷ [] | some _ ↦ rows ]

  -- `INSERT ... ON CONFLICT DO UPDATE` of every other column
  unfoldable pub upsert : R → List R → List R
  upsert r [] = r ∷ []
  upsert r (s ∷ rows) =
      let rest = upsert r rows in if e.beq (key s) (key r) then r ∷ rows else s ∷ rest

  -- The primary key: no two rows share it.
  abbrev pub IsKeyed : List R → Type 0
  IsKeyed [] = Unit {0}
  IsKeyed (r ∷ rows) = (find (key r) rows ≡ none) × IsKeyed rows

module _ {R : Type 0} where
  -- `DELETE ... WHERE stale`
  unfoldable pub delete_where : (R → Bool) → List R → List R
  delete_where stale [] = []
  delete_where stale (r ∷ rows) =
      let rest = delete_where stale rows in if stale r then rest else r ∷ rest

  -- How many rows such a statement touches.
  unfoldable pub count_where : (R → Bool) → List R → ℕ
  count_where stale [] = 0
  count_where stale (r ∷ rows) =
      let rest = count_where stale rows in if stale r then suc rest else rest
