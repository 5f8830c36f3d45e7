-- ===== src/Root/Lexical.antt =====
-- src/root.rs: the first stage, `lexical`.
use mathlib.Core.List.{map-append}
use mathlib.Core.Option.{some-injective}
use local_mcp.Common.{
  subst, ◌≡◌, refl, sym, ap, ◌∙◌, inl, inr, false, Option, none, some, Option-cases, List, [], ◌∷◌,
  ◌++◌, reverse, map, append-nil, append_assoc, arith, All, All-append, All-reverse,
}
use local_mcp.Common.Str.{Str}
use local_mcp.Common.Result.{ok, err, ok_or, bind-eq-ok, if-eq-ok, ok_or-eq-ok}
use local_mcp.FilePath.{
  Component, prefix, root_dir, cur_dir, parent_dir, normal, PathBuf, components, is_absolute, join,
  parent, parent_reversed, starts_with,
}
use local_mcp.FilePath.Laws.{IsInside, starts_with-IsInside, starts_with-append, parent-normal}
use local_mcp.Root.{Fs, Root, RootError, escape, normalize, lexical, resolve}

not_absolute : (names : List Str) → is_absolute (map normal names) ≡ false
not_absolute [] = refl
not_absolute (n ∷ ns) = refl

join-names :
    (base : PathBuf) (names : List Str) → join base (map normal names) ≡ base ++ map normal names
unfolding join
join-names base [] = refl
join-names base (n ∷ ns) = refl

-- The loop over two parts of a path, one after the other.
normalize_both : Option PathBuf → List Component → Option PathBuf
normalize_both none ds = none
normalize_both (some out) ds = normalize out ds

normalize-append :
    (out : PathBuf) (cs ds : List Component)
    → normalize out (cs ++ ds) ≡ normalize_both (normalize out cs) ds
unfolding normalize normalize_both
normalize-append out [] ds = refl
normalize-append out (prefix s ∷ cs) ds = normalize-append _ cs ds
normalize-append out (root_dir ∷ cs) ds = normalize-append _ cs ds
normalize-append out (cur_dir ∷ cs) ds = normalize-append out cs ds
normalize-append out (parent_dir ∷ cs) ds = elim (Option-cases (parent out)) [
  | inl e ↦ rw (e, normalize) refl
  | inr (up, e) ↦ rw (e, normalize) (normalize-append up cs ds)
]
normalize-append out (normal s ∷ cs) ds = normalize-append _ cs ds

-- A name and a `..` behind it cancel, wherever they stand in a path.
pub normalize_cancel :
    (out : PathBuf) (cs ds : List Component) (s : Str)
    → normalize out (cs ++ normal s ∷ parent_dir ∷ ds) ≡ normalize out (cs ++ ds)
unfolding normalize normalize_both
normalize_cancel out cs ds s =
    normalize-append out cs (normal s ∷ parent_dir ∷ ds)
    ∙ cancel (normalize out cs)
    ∙ sym (normalize-append out cs ds)
  where
    cancel :
        (o : Option PathBuf) → normalize_both o (normal s ∷ parent_dir ∷ ds) ≡ normalize_both o ds
    cancel none = refl
    cancel (some p) = rw (parent-normal p s, normalize)

normalize-names :
    (out : PathBuf) (names : List Str)
    → normalize out (map normal names) ≡ some (out ++ map normal names)
unfolding normalize
normalize-names out [] = ap some (sym (append-nil out))
normalize-names out (n ∷ ns) =
    normalize-names (out ++ normal n ∷ []) ns
    ∙ ap some (append_assoc out (normal n ∷ []) (map normal ns))

normalize-root :
    (tops names : List Str)
    → normalize [] ((root_dir ∷ map normal tops) ++ map normal names)
      ≡ some ((root_dir ∷ map normal tops) ++ map normal names)
unfolding normalize
normalize-root tops names =
    rw (← map-append normal tops names) (normalize-names (root_dir ∷ []) (tops ++ names))

-- What is left of a path after the first stage: no `.` and no `..`.
abbrev pub IsClean : Component → Type 0
IsClean cur_dir = ⊥
IsClean parent_dir = ⊥
IsClean _ = Unit {0}

All-reverse_of_some : (up p : PathBuf) → some (reverse up) ≡ some p → All IsClean up → All IsClean p
All-reverse_of_some up p h c = subst (All IsClean) (some-injective _ _ h) (All-reverse IsClean up c)

parent-IsClean : (rev p : PathBuf) → All IsClean rev → parent_reversed rev ≡ some p → All IsClean p
parent-IsClean (normal s ∷ up) p (_, c) h = All-reverse_of_some up p h c
parent-IsClean (cur_dir ∷ up) p (_, c) h = All-reverse_of_some up p h c
parent-IsClean (parent_dir ∷ up) p (_, c) h = All-reverse_of_some up p h c
parent-IsClean (root_dir ∷ up) p c h = cc
parent-IsClean (prefix s ∷ up) p c h = cc
parent-IsClean [] p c h = cc

normalize-IsClean :
    (out cs p : PathBuf) → All IsClean out → normalize out cs ≡ some p → All IsClean p
unfolding normalize parent
normalize-IsClean out [] p c h = subst (All IsClean) (some-injective _ _ h) c
normalize-IsClean out (prefix s ∷ cs) p c h = normalize-IsClean _ cs p (tt, tt) h
normalize-IsClean out (root_dir ∷ cs) p c h = normalize-IsClean _ cs p (tt, tt) h
normalize-IsClean out (cur_dir ∷ cs) p c h = normalize-IsClean out cs p c h
normalize-IsClean out (parent_dir ∷ cs) p c h = elim (Option-cases (parent out)) [
  | inl e ↦ let h' : none ≡ some p = rw (e, normalize) at h in cc
  | inr (up, e) ↦
      normalize-IsClean up cs p (parent-IsClean (reverse out) up (All-reverse IsClean out c) e)
        (rw (e, normalize) at h)
]
normalize-IsClean out (normal s ∷ cs) p c h =
    normalize-IsClean _ cs p (All-append IsClean out (normal s ∷ []) c (tt, tt)) h

-- The result of the first stage lies inside the root and has no `.` and no `..`.
pub lexical-IsClean :
    (root : Root) (input : Str) (p : PathBuf)
    → lexical root input ≡ ok p
    → IsInside root.path p × All IsClean p
unfolding lexical
lexical-IsClean root input p h =
    let (out, n, h₁) = bind-eq-ok (ok_or (escape input) _) _ h in
    let (s, same) = if-eq-ok (starts_with out root.path) _ p (escape input) h₁ in
    (
      rw same (starts_with-IsInside out root.path s),
      rw same (normalize-IsClean [] _ out tt (ok_or-eq-ok _ _ n)),
    )

lexical-err :
    (root : Root) (input : Str) (e : RootError) → lexical root input ≡ err e → e ≡ escape input
unfolding lexical
lexical-err root input e h = ground arith

-- A path that the first stage refuses is refused as an escape, whatever the file system answers.
pub resolve-lexical-escape :
    (root : Root) (input : Str) (e : RootError)
    → lexical root input ≡ err e
    → (fs : Fs) → resolve fs root input ≡ err (escape input)
unfolding resolve
resolve-lexical-escape root input e h fs = rw h (ap err (lexical-err root input e h))

-- A relative path made of names alone goes through the first stage unchanged, behind the root, which
-- is itself an absolute path of names.
pub lexical-names :
    (root : Root) (input : Str) (tops names : List Str)
    → root.path ≡ root_dir ∷ map normal tops
    → components input ≡ map normal names
    → lexical root input ≡ ok (root.path ++ map normal names)
unfolding lexical
lexical-names root input tops names r c = rw (
  c,
  not_absolute names,
  join-names root.path names,
  r,
  normalize-root tops names,
  starts_with-append (root_dir ∷ map normal tops) (map normal names),
)
