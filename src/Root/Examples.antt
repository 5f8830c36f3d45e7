-- ===== src/Root/Examples.antt =====
-- Tests of the path resolver after those of src/root.rs, and its theorems at concrete file systems.
use local_mcp.Common.{
  ◌≡◌, refl, sym, ap, ◌↔◌, ◌⊎◌, Bool, true, false, [], ◌∷◌, ◌++◌, if◌then◌else◌, ◌||◌, map, arith,
}
use local_mcp.Common.Str.{Str, bytes, str_eq}
use local_mcp.Common.Result.{Result, ok, err}
use local_mcp.FilePath.{
  normal, root_dir, PathBuf, components, component_eq, join, parent, starts_with, strip_base,
}
use local_mcp.FilePath.Laws.{IsInside}
use local_mcp.Root.{
  Fs, IoError, Root, RootError, escape, normalize, lexical, walk_up, push_all, resolve,
}
use local_mcp.Root.Resolve.{Accepted, resolve-IsInside}
use local_mcp.Root.Complete.{resolve_iff}
use local_mcp.Root.Symlinks.{IsCoherent, NewIn, resolve_target}

abbrev srv : PathBuf
srv = root_dir ∷ normal (bytes "srv") ∷ []

abbrev sub : PathBuf
sub = root_dir ∷ normal (bytes "srv") ∷ normal (bytes "sub") ∷ []

abbrev out : PathBuf
out = root_dir ∷ normal (bytes "srv") ∷ normal (bytes "out") ∷ []

abbrev root : Root
root = record { path = srv }

path_eq : PathBuf → PathBuf → Bool
path_eq [] [] = true
path_eq (c ∷ p) (d ∷ q) = let rest = path_eq p q in if component_eq c d then rest else false
path_eq _ _ = false

-- A directory `/srv/sub`, and a link `/srv/out` to `/`.
abbrev disk : Fs
disk = record {
  exists = λ p. path_eq p (root_dir ∷ []) || path_eq p srv || path_eq p sub || path_eq p out;
  canonicalize = λ p. if path_eq p out then ok (root_dir ∷ []) else ok p;
}

-- What the tests compute with.
run : Str → Result RootError PathBuf
unfolding resolve lexical components normalize join parent starts_with strip_base component_eq
    str_eq walk_up push_all path_eq
run = resolve disk root

run_new :
    resolve disk root (bytes "sub/./new/../a/b")
    ≡ ok (sub ++ normal (bytes "a") ∷ normal (bytes "b") ∷ [])
unfolding run
run_new = refl

run_link : resolve disk root (bytes "out/etc") ≡ err (escape (bytes "out/etc"))
unfolding run
run_link = refl

run_dots : resolve disk root (bytes "sub/../../etc") ≡ err (escape (bytes "sub/../../etc"))
unfolding run
run_dots = refl

-- The same directories with no link.
abbrev plain : Fs
plain = record { exists = disk.exists; canonicalize = λ p. ok p }

abbrev found : PathBuf → Result IoError PathBuf
found p = ok p

ok_same : (p c : PathBuf) → found p ≡ found c → p ≡ c
ok_same p c h = ground arith

plain-IsCoherent : IsCoherent plain
plain-IsCoherent = record {
  canonicalize_canonical = λ p c h. refl;
  same_entries =
      λ p c n h. ap (λ (q : PathBuf). plain.exists (q ++ normal n ∷ [])) (sym (ok_same p c h));
}

resolve-IsInside_example : IsInside srv (sub ++ normal (bytes "a") ∷ normal (bytes "b") ∷ [])
resolve-IsInside_example = resolve-IsInside disk root (bytes "sub/./new/../a/b") _ run_new

resolve_iff_example :
    (resolve disk root (bytes "sub/a/b") ≡ ok (sub ++ normal (bytes "a") ∷ normal (bytes "b") ∷ []))
    ↔ Accepted disk root (bytes "sub/a/b") (sub ++ normal (bytes "a") ∷ normal (bytes "b") ∷ [])
resolve_iff_example = resolve_iff disk root (bytes "sub/a/b") _

plain_new : resolve plain root (bytes "sub/a") ≡ ok (sub ++ normal (bytes "a") ∷ [])
unfolding run
plain_new = refl

resolve_target_example :
    (plain.canonicalize (sub ++ normal (bytes "a") ∷ []) ≡ ok (sub ++ normal (bytes "a") ∷ []))
    ⊎ NewIn plain root (sub ++ normal (bytes "a") ∷ [])
resolve_target_example = resolve_target plain root (bytes "sub/a") _ plain-IsCoherent plain_new

dots_escape : lexical root (bytes "../etc") ≡ err (escape (bytes "../etc"))
unfolding run
dots_escape = refl

lexical_of_sub : lexical root (bytes "./a/../sub") ≡ ok sub
unfolding run
lexical_of_sub = refl

sub_components : components (bytes "sub/a") ≡ map normal (bytes "sub" ∷ bytes "a" ∷ [])
unfolding components
sub_components = refl

lexical_of_out : lexical root (bytes "out") ≡ ok out
unfolding run
lexical_of_out = refl

out_exists : disk.exists out ≡ true
unfolding path_eq component_eq str_eq
out_exists = refl
