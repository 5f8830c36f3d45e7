-- ===== src/FilePath.antt =====
-- What src/root.rs uses of `std::path`: a path is the sequence of its components.
pub mod Laws
use local_mcp.Common.{
  ℕ, Bool, true, false, ◌&&◌, ◌||◌, Option, none, some, List, [], ◌∷◌, ◌++◌, reverse, ◌==◌,
  if◌then◌else◌,
}
use local_mcp.Common.Str.{Str, bytes, str_eq, is_empty}

-- `std::path::Component`. A Unix path has no prefix.
pub data Component : Type 0 where
  prefix : Str → Component
  root_dir cur_dir parent_dir : Component
  normal : Str → Component

abbrev pub PathBuf : Type 0
PathBuf = List Component

unfoldable pub component_eq : Component → Component → Bool
component_eq (prefix s) (prefix t) = str_eq s t
component_eq root_dir root_dir = true
component_eq cur_dir cur_dir = true
component_eq parent_dir parent_dir = true
component_eq (normal s) (normal t) = str_eq s t
component_eq _ _ = false

-- The byte is put on the first segment.
abbrev pub on_first : ℕ → List Str → List Str
on_first b [] = (b ∷ []) ∷ []
on_first b (s ∷ segments) = (b ∷ s) ∷ segments

-- The text between the slashes.
unfoldable pub split_slash : Str → List Str
split_slash [] = [] ∷ []
split_slash (b ∷ s) = let rest = split_slash s in if b == b'/' then [] ∷ rest else on_first b rest

-- Empty segments and `.` are no components, but for a leading `.`.
abbrev pub of_segments : List Str → PathBuf
of_segments [] = []
of_segments (s ∷ segments) =
    let rest = of_segments segments in
    if is_empty s || str_eq s (bytes ".")
    then rest
    else if str_eq s (bytes "..")
    then parent_dir ∷ rest
    else normal s ∷ rest

abbrev leading_dot : List Str → PathBuf → PathBuf
leading_dot [] p = p
leading_dot (s ∷ segments) p = if str_eq s (bytes ".") then cur_dir ∷ p else p

-- `Path::new(input).components()`
unfoldable pub components : Str → PathBuf
unfolding split_slash str_eq
components [] = []
components (b ∷ s) =
    if b == b'/'
    then root_dir ∷ of_segments (split_slash s)
    else leading_dot (split_slash (b ∷ s)) (of_segments (split_slash (b ∷ s)))

abbrev pub is_absolute : PathBuf → Bool
is_absolute (root_dir ∷ p) = true
is_absolute _ = false

-- `base.join(p)`, as its components: a `.` behind the base is dropped.
abbrev join_relative : PathBuf → PathBuf → PathBuf
join_relative base (cur_dir ∷ p) = base ++ p
join_relative base p = base ++ p

unfoldable pub join : PathBuf → PathBuf → PathBuf
join base p = if is_absolute p then p else join_relative base p

-- `out.push(c)` of one component: a root or a prefix replaces what was there.
abbrev pub push : PathBuf → Component → PathBuf
push out (prefix s) = prefix s ∷ []
push out root_dir = root_dir ∷ []
push out c = out ++ c ∷ []

-- On the reversed components: a root has no parent.
abbrev pub parent_reversed : PathBuf → Option PathBuf
parent_reversed (normal s ∷ up) = some (reverse up)
parent_reversed (cur_dir ∷ up) = some (reverse up)
parent_reversed (parent_dir ∷ up) = some (reverse up)
parent_reversed _ = none

-- `parent`; `out.pop()` sets `out` to it, or returns false.
unfoldable pub parent : PathBuf → Option PathBuf
parent p = parent_reversed (reverse p)

-- `p.strip_prefix(base)`, by whole components
unfoldable pub strip_base : PathBuf → PathBuf → Option PathBuf
strip_base [] p = some p
strip_base (b ∷ base) [] = none
strip_base (b ∷ base) (c ∷ p) =
    let rest = strip_base base p in if component_eq c b then rest else none

abbrev is_some {ℓ} : {A : Type ℓ} → Option A → Bool
is_some none = false
is_some (some a) = true

-- `p.starts_with(base)`
unfoldable pub starts_with : PathBuf → PathBuf → Bool
unfolding strip_base
starts_with p base = is_some (strip_base base p)
