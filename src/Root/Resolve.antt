-- ===== src/Root/Resolve.antt =====
-- src/root.rs: the second stage, what `resolve` returns in terms of the answers of the file system.
use mathlib.Core.List.{map-append, reverse_aux-eq}
use mathlib.Core.Option.{some-injective}
use local_mcp.Common.{
  subst, ◌≡◌, sym, ap, ◌∙◌, inl, inr, true, false, Bool-cases, none, some, List, [], ◌∷◌, ◌++◌,
  reverse, map, append-nil, append_assoc, reverse-append, reverse-reverse, if◌then◌else◌,
}
use local_mcp.Common.Str.{Str}
use local_mcp.Common.Result.{bind-eq-ok, map_err-eq-ok, ok_or-eq-ok, if-eq-ok, ok, map_err, ok_or}
use local_mcp.FilePath.{normal, PathBuf, starts_with}
use local_mcp.FilePath.Laws.{IsInside, starts_with-IsInside}
use local_mcp.Root.{Fs, Root, escape, io, lexical, Walk, walk_up, push_all, resolve}

pub push_all-eq-append : (p : PathBuf) (names : List Str) → push_all p names ≡ p ++ map normal names
unfolding push_all
push_all-eq-append p [] = sym (append-nil p)
push_all-eq-append p (n ∷ ns) =
    push_all-eq-append (p ++ normal n ∷ []) ns ∙ append_assoc p (normal n ∷ []) (map normal ns)

-- No path on the way down from `base` by these names exists.
abbrev pub AllMissing : Fs → PathBuf → List Str → Type 0
AllMissing fs base [] = Unit {0}
AllMissing fs base (n ∷ ns) =
    (fs.exists (base ++ normal n ∷ []) ≡ false) × AllMissing fs (base ++ normal n ∷ []) ns

AllMissing-snoc :
    (fs : Fs) (base : PathBuf) (ns : List Str) (n : Str)
    → AllMissing fs base ns
    → fs.exists ((base ++ map normal ns) ++ normal n ∷ []) ≡ false
    → AllMissing fs base (ns ++ n ∷ [])
AllMissing-snoc fs base [] n h e = (rw append-nil at e, tt)
AllMissing-snoc fs base (m ∷ ns) n (h, hs) e = (
  h,
  AllMissing-snoc fs (base ++ normal m ∷ []) ns n hs
      (rw (append_assoc base (normal m ∷ []) (map normal ns)) e),
)

-- What the walk has found when it stops with `names` still to be created.
pub record Walked (fs : Fs) (p : PathBuf) (ancestor : PathBuf) (names : List Str) : Type 0 where
  pub splits : p ≡ ancestor ++ map normal names
  pub found : fs.exists ancestor ≡ true
  pub missing : AllMissing fs ancestor names

pub Walked-self : (fs : Fs) (p : PathBuf) → fs.exists p ≡ true → Walked fs p p []
Walked-self fs p e = record { splits = sym (append-nil p); found = e; missing = tt }

Walked-snoc :
    (fs : Fs) (p a : PathBuf) (ns : List Str) (n : Str)
    → Walked fs p a ns
    → fs.exists (p ++ normal n ∷ []) ≡ false
    → Walked fs (p ++ normal n ∷ []) a (ns ++ n ∷ [])
Walked-snoc fs p a ns n w e = record {
  splits =
      ap (λ (q : PathBuf). q ++ normal n ∷ []) w.splits
      ∙ rw (append_assoc a (map normal ns) (normal n ∷ []))
          (ap (λ (q : PathBuf). a ++ q) (sym (map-append normal ns (n ∷ []))));
  found = w.found;
  missing =
      AllMissing-snoc fs a ns n w.missing
        (subst (λ (q : PathBuf). fs.exists (q ++ normal n ∷ []) ≡ false) w.splits e);
}

-- The result of a walk that has come up from `p` with `trailing` pushed.
abbrev Outcome : Fs → PathBuf → List Str → Walk → Type 0
Outcome fs p trailing w =
    (names : List Str) × (w.trailing ≡ trailing ++ reverse names) × Walked fs p w.ancestor names

module _ (fs : Fs) (p : PathBuf) (trailing : List Str) (w : Walk) where
  Outcome-stop :
      fs.exists p ≡ true
      → some (record { ancestor = p; trailing = trailing }) ≡ some w
      → Outcome fs p trailing w
  Outcome-stop e h =
      let same = some-injective _ _ h in
      (
        [],
        sym (ap (λ (v : Walk). v.trailing) same) ∙ sym (append-nil trailing),
        subst (λ (v : Walk). Walked fs p v.ancestor []) same (Walked-self fs p e),
      )

  Outcome-root :
      (if fs.exists p then some (record { ancestor = p; trailing = trailing }) else none) ≡ some w
      → Outcome fs p trailing w
  Outcome-root h = elim (Bool-cases (fs.exists p)) [
    | inl e ↦ Outcome-stop e (rw e at h)
    | inr e ↦ let h' : none ≡ some w = rw e at h in cc
  ]

Outcome-step :
    (fs : Fs) (up : PathBuf) (n : Str) (trailing : List Str) (w : Walk)
    → fs.exists (reverse (normal n ∷ up)) ≡ false
    → Outcome fs (reverse up) (trailing ++ n ∷ []) w
    → Outcome fs (reverse (normal n ∷ up)) trailing w
Outcome-step fs up n trailing w e (names, trails, found) =
    let snoc : reverse (normal n ∷ up) ≡ reverse up ++ normal n ∷ [] =
      reverse_aux-eq up (normal n ∷ []) in
    let absent : fs.exists (reverse up ++ normal n ∷ []) ≡ false =
      subst (λ (q : PathBuf). fs.exists q ≡ false) snoc e in
    (
      names ++ n ∷ [],
      trails
          ∙ append_assoc trailing (n ∷ []) (reverse names)
          ∙ ap (λ (l : List Str). trailing ++ l) (sym (reverse-append names (n ∷ []))),
      subst (λ (q : PathBuf). Walked fs q w.ancestor (names ++ n ∷ [])) (sym snoc)
          (Walked-snoc fs (reverse up) w.ancestor names n found absent),
    )

pub walk_up-Walked :
    (fs : Fs) (p : PathBuf) (trailing : List Str) (w : Walk)
    → walk_up fs p trailing ≡ some w
    → Outcome fs (reverse p) trailing w
unfolding walk_up
walk_up-Walked fs [] trailing w h = Outcome-root fs [] trailing w h
walk_up-Walked fs (normal n ∷ up) trailing w h =
    elim (Bool-cases (fs.exists (reverse (normal n ∷ up)))) [
      | inl e ↦ Outcome-stop fs (reverse (normal n ∷ up)) trailing w e (rw e at h)
      | inr e ↦
          Outcome-step fs up n trailing w e
            (walk_up-Walked fs up (trailing ++ n ∷ []) w (rw e at h))
    ]
walk_up-Walked fs (c ∷ up) trailing w h = Outcome-root fs (reverse (c ∷ up)) trailing w h

-- Why a path is accepted: every stage, with what it found.
pub record Accepted (fs : Fs) (root : Root) (input : Str) (p : PathBuf) : Type 0 where
  pub lex : PathBuf
  pub ancestor : PathBuf
  pub names : List Str
  pub canonical : PathBuf
  pub lexically : lexical root input ≡ ok lex
  pub walked : Walked fs lex ancestor names
  pub resolves : fs.canonicalize ancestor ≡ ok canonical
  pub inside : IsInside root.path canonical
  pub result : p ≡ canonical ++ map normal names

-- Whatever the file system answers, a path that `resolve` returns is the canonical form of the
-- deepest existing ancestor of the lexical path, which lies inside the root, followed by exactly
-- the names below that ancestor, none of which exists.
pub resolve-Accepted :
    (fs : Fs) (root : Root) (input : Str) (p : PathBuf)
    → resolve fs root input ≡ ok p
    → Accepted fs root input p
unfolding resolve
resolve-Accepted fs root input p h =
    let (lex, lexically, h₁) = bind-eq-ok (lexical root input) _ h in
    let (w, walk, h₂) = bind-eq-ok (ok_or (escape input) (walk_up fs (reverse lex) [])) _ h₁ in
    let (c, canonical, h₃) =
      bind-eq-ok (map_err (io w.ancestor) (fs.canonicalize w.ancestor)) _ h₂ in
    let (s, result) = if-eq-ok (starts_with c root.path) _ p (escape input) h₃ in
    let (names, trails, found) = walk_up-Walked fs (reverse lex) [] w (ok_or-eq-ok _ _ walk) in
    record {
      lex = lex;
      ancestor = w.ancestor;
      names = names;
      canonical = c;
      lexically = lexically;
      walked = subst (λ (q : PathBuf). Walked fs q w.ancestor names) (reverse-reverse lex) found;
      resolves = map_err-eq-ok _ _ canonical;
      inside = starts_with-IsInside c root.path s;
      result =
          result
          ∙ push_all-eq-append c (reverse w.trailing)
          ∙ ap (λ (l : List Str). c ++ map normal (reverse l)) trails
          ∙ ap (λ (l : List Str). c ++ map normal l) (reverse-reverse names);
    }

-- A path that `resolve` returns is the root or lies below it, whatever the file system answers.
pub resolve-IsInside :
    (fs : Fs) (root : Root) (input : Str) (p : PathBuf)
    → resolve fs root input ≡ ok p
    → IsInside root.path p
resolve-IsInside fs root input p h =
    let a = resolve-Accepted fs root input p h in
    let (rest, below) = a.inside in
    (
      rest ++ map normal a.names,
      a.result
          ∙ ap (λ (q : PathBuf). q ++ map normal a.names) below
          ∙ append_assoc root.path rest (map normal a.names),
    )
