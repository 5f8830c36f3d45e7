-- ===== src/FilePath/Laws.antt =====
-- The laws of component-wise prefixes and parents.
use mathlib.Core.Bool.{false≢true}
use local_mcp.Common.{
  ◌≡◌, refl, ap, true, none, some, [], ◌∷◌, ◌++◌, reverse-append, reverse-reverse, ◌⊎◌, arith,
  Option-cases, inl, inr,
}
use local_mcp.Common.Str.{Str, str_eq_iff, str_eq_refl}
use local_mcp.FilePath.{
  Component, prefix, root_dir, cur_dir, parent_dir, normal, PathBuf, component_eq, parent,
  strip_base, starts_with,
}

-- `p` is `base` or lies below it.
abbrev pub IsInside : PathBuf → PathBuf → Type 0
IsInside base p = (rest : PathBuf) × (p ≡ base ++ rest)

pub component_eq_refl : (c : Component) → component_eq c c ≡ true
unfolding component_eq
component_eq_refl (prefix s) = str_eq_refl s
component_eq_refl root_dir = refl
component_eq_refl cur_dir = refl
component_eq_refl parent_dir = refl
component_eq_refl (normal s) = str_eq_refl s

pub eq_of_component_eq : (c d : Component) → component_eq c d ≡ true → c ≡ d
unfolding component_eq
eq_of_component_eq (prefix s) (prefix t) h = ap prefix ((str_eq_iff s t).0 h)
eq_of_component_eq root_dir root_dir h = refl
eq_of_component_eq cur_dir cur_dir h = refl
eq_of_component_eq parent_dir parent_dir h = refl
eq_of_component_eq (normal s) (normal t) h = ap normal ((str_eq_iff s t).0 h)
eq_of_component_eq _ _ h = cc

pub strip_base-append : (base p : PathBuf) → strip_base base (base ++ p) ≡ some p
unfolding strip_base
strip_base-append [] p = refl
strip_base-append (b ∷ base) p = rw component_eq_refl (strip_base-append base p)

pub strip_base-eq-some : (base p rest : PathBuf) → strip_base base p ≡ some rest → p ≡ base ++ rest
unfolding strip_base
strip_base-eq-some [] p rest h = ground arith
strip_base-eq-some (b ∷ base) [] rest h = cc
strip_base-eq-some (b ∷ base) (c ∷ p) rest h =
    ground (arith, eq_of_component_eq c b, strip_base-eq-some base p rest)

pub starts_with-append : (base p : PathBuf) → starts_with (base ++ p) base ≡ true
unfolding starts_with
starts_with-append base p = rw strip_base-append

pub starts_with-IsInside : (p base : PathBuf) → starts_with p base ≡ true → IsInside base p
unfolding starts_with
starts_with-IsInside p base h = elim (Option-cases (strip_base base p)) [
  | inl e ↦ absurd (false≢true (rw e at h))
  | inr (rest, e) ↦ (rest, strip_base-eq-some base p rest e)
]

pub starts_with_of_IsInside : (base p : PathBuf) → IsInside base p → starts_with p base ≡ true
starts_with_of_IsInside base p (rest, e) = rw e (starts_with-append base rest)

-- The parent of a path that ends in a name is the path without it.
pub parent-normal : (p : PathBuf) (s : Str) → parent (p ++ normal s ∷ []) ≡ some p
unfolding parent
parent-normal p s = rw (reverse-append p (normal s ∷ [])) (ap some (reverse-reverse p))

pub strip_base-none_or_append :
    (base p : PathBuf) → (strip_base base p ≡ none) ⊎ ((rest : PathBuf) × (p ≡ base ++ rest))
strip_base-none_or_append base p = elim (Option-cases (strip_base base p)) [
  | inl e ↦ inl e
  | inr (rest, e) ↦ inr (rest, strip_base-eq-some base p rest e)
]
