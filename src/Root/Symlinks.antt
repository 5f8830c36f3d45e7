-- ===== src/Root/Symlinks.antt =====
-- src/root.rs: where a resolved path leads, on a file system that agrees with itself.
use local_mcp.Common.{
  subst, ◌≡◌, refl, sym, ap, ◌∙◌, ◌⊎◌, inl, inr, false, true, List, [], ◌∷◌, ◌++◌, map, append-nil,
  if◌then◌else◌,
}
use local_mcp.Common.Str.{Str}
use local_mcp.Common.Result.{ok, err, ◌>>=◌, map_err}
use local_mcp.FilePath.{normal, PathBuf, starts_with}
use local_mcp.FilePath.Laws.{IsInside}
use local_mcp.Root.{Fs, Root, escape, io, lexical, resolve, push_all}
use local_mcp.Root.Resolve.{Accepted, AllMissing, Walked-self, resolve-Accepted}
use local_mcp.Root.Complete.{walk_up-Walked_iff}

-- What POSIX says of `realpath` and `lstat`: a canonical path is its own canonical path, and a
-- directory has the same entries under either name.
pub record IsCoherent (fs : Fs) : Type 0 where
  pub canonicalize_canonical : (p c : PathBuf) → fs.canonicalize p ≡ ok c → fs.canonicalize c ≡ ok c
  pub same_entries :
      (p c : PathBuf) (n : Str)
      → fs.canonicalize p ≡ ok c
      → fs.exists (c ++ normal n ∷ []) ≡ fs.exists (p ++ normal n ∷ [])

-- A canonical directory inside the root, and a name in it that nothing stands under.
pub record NewIn (fs : Fs) (root : Root) (p : PathBuf) : Type 0 where
  pub dir : PathBuf
  pub name : Str
  pub rest : List Str
  pub splits : p ≡ dir ++ normal name ∷ map normal rest
  pub canonical : fs.canonicalize dir ≡ ok dir
  pub inside : IsInside root.path dir
  pub free : fs.exists (dir ++ normal name ∷ []) ≡ false

target :
    (fs : Fs) (root : Root) (input : Str) (p : PathBuf)
    → IsCoherent fs
    → (a : Accepted fs root input p) (names : List Str) → a.names ≡ names
    → (fs.canonicalize p ≡ ok p) ⊎ NewIn fs root p
target fs root input p coherent a [] e = inl (
    subst (λ (q : PathBuf). fs.canonicalize q ≡ ok q)
      (sym
        (a.result ∙ ap (λ (l : List Str). a.canonical ++ map normal l) e ∙ append-nil a.canonical))
      (coherent.canonicalize_canonical a.ancestor a.canonical a.resolves))
target fs root input p coherent a (n ∷ ns) e =
    let missing : AllMissing fs a.ancestor (n ∷ ns) =
      subst (AllMissing fs a.ancestor) e a.walked.missing in
    inr (record {
      dir = a.canonical;
      name = n;
      rest = ns;
      splits = a.result ∙ ap (λ (l : List Str). a.canonical ++ map normal l) e;
      canonical = coherent.canonicalize_canonical a.ancestor a.canonical a.resolves;
      inside = a.inside;
      free = coherent.same_entries a.ancestor a.canonical n a.resolves ∙ missing.0;
    })

-- On a coherent file system a path that `resolve` returns is canonical, so that no symbolic link
-- leads on from it, or it names something new: a name that nothing stands under, not even a
-- dangling link, in a canonical directory inside the root, with only names behind it.
pub resolve_target :
    (fs : Fs) (root : Root) (input : Str) (p : PathBuf)
    → IsCoherent fs
    → resolve fs root input ≡ ok p
    → (fs.canonicalize p ≡ ok p) ⊎ NewIn fs root p
resolve_target fs root input p coherent h =
    let a = resolve-Accepted fs root input p h in target fs root input p coherent a a.names refl

-- A path that is there, dangling links included, is decided by its canonical form alone: it is
-- refused if that cannot be computed or lies outside the root.
pub resolve_existing :
    (fs : Fs) (root : Root) (input : Str) (lex : PathBuf)
    → lexical root input ≡ ok lex
    → fs.exists lex ≡ true
    → resolve fs root input ≡ (do
      resolved ← map_err (io lex) (fs.canonicalize lex)
      if starts_with resolved root.path then ok resolved else err (escape input))
unfolding resolve push_all
resolve_existing fs root input lex l e =
    rw (l, walk_up-Walked_iff fs lex lex [] (Walked-self fs lex e))
