-- ===== src/Root/Complete.antt =====
-- src/root.rs: which paths `resolve` accepts.
use mathlib.Core.List.{map-append}
use local_mcp.Common.{
  subst, reverse-cons, ◌≡◌, sym, ap, ◌∙◌, ◌↔◌, true, false, some, List, [], ◌∷◌, ◌++◌, reverse, map,
  append-nil, append_assoc, reverse-reverse,
}
use local_mcp.Common.Str.{Str}
use local_mcp.Common.Result.{ok}
use local_mcp.FilePath.{normal, PathBuf}
use local_mcp.FilePath.Laws.{starts_with_of_IsInside}
use local_mcp.Root.{Fs, Root, walk_up, resolve}
use local_mcp.Root.Resolve.{AllMissing, Walked, Accepted, push_all-eq-append, resolve-Accepted}

AllMissing-init :
    (fs : Fs) (base : PathBuf) (ns : List Str) (n : Str)
    → AllMissing fs base (ns ++ n ∷ [])
    → AllMissing fs base ns × (fs.exists ((base ++ map normal ns) ++ normal n ∷ []) ≡ false)
AllMissing-init fs base [] n (h, _) = (tt, rw append-nil h)
AllMissing-init fs base (m ∷ ns) n (h, hs) =
    let (front, last) = AllMissing-init fs (base ++ normal m ∷ []) ns n hs in
    ((h, front), rw (append_assoc base (normal m ∷ []) (map normal ns)) at last)

walk_up_stop :
    (fs : Fs) (p : PathBuf) (trailing : List Str)
    → fs.exists (reverse p) ≡ true
    → walk_up fs p trailing ≡ some (record { ancestor = reverse p; trailing = trailing })
unfolding walk_up
walk_up_stop fs [] trailing e = rw e
walk_up_stop fs (normal n ∷ up) trailing e = rw e
walk_up_stop fs (c ∷ up) trailing e = rw e

reversed_path :
    (a : PathBuf) (rs : List Str)
    → reverse (map normal rs ++ reverse a) ≡ a ++ map normal (reverse rs)
reversed_path a [] = reverse-reverse a ∙ sym (append-nil a)
reversed_path a (r ∷ rs) =
    reverse-cons (normal r) (map normal rs ++ reverse a)
    ∙ ap (λ (q : PathBuf). q ++ normal r ∷ []) (reversed_path a rs)
    ∙ append_assoc a (map normal (reverse rs)) (normal r ∷ [])
    ∙ ap (λ (q : PathBuf). a ++ q)
        (sym (map-append normal (reverse rs) (r ∷ [])) ∙ ap (map normal) (sym (reverse-cons r rs)))

walk_up_down :
    (fs : Fs) (a : PathBuf) (rs trailing : List Str)
    → fs.exists a ≡ true
    → AllMissing fs a (reverse rs)
    → walk_up fs (map normal rs ++ reverse a) trailing
      ≡ some (record { ancestor = a; trailing = trailing ++ rs })
unfolding walk_up
walk_up_down fs a [] trailing e m = rw (append-nil trailing) (
    walk_up_stop fs (reverse a) trailing (rw reverse-reverse e)
    ∙ ap (λ (q : PathBuf). some (record { ancestor = q; trailing = trailing })) (reverse-reverse a))
walk_up_down fs a (r ∷ rs) trailing e m =
    let (front, last) = AllMissing-init fs a (reverse rs) r (rw reverse-cons at m) in
    let absent : fs.exists (reverse (normal r ∷ (map normal rs ++ reverse a))) ≡ false =
      rw (reverse-cons (normal r) (map normal rs ++ reverse a), reversed_path a rs) last in
    rw absent (
      walk_up_down fs a rs (trailing ++ r ∷ []) e front
      ∙ ap (λ (l : List Str). some (record { ancestor = a; trailing = l }))
          (append_assoc trailing (r ∷ []) rs))

pub walk_up-Walked_iff :
    (fs : Fs) (p a : PathBuf) (names : List Str)
    → Walked fs p a names
    → walk_up fs (reverse p) [] ≡ some (record { ancestor = a; trailing = reverse names })
walk_up-Walked_iff fs p a names w =
    let back : reverse (map normal (reverse names) ++ reverse a) ≡ p =
      reversed_path a (reverse names)
      ∙ ap (λ (l : List Str). a ++ map normal l) (reverse-reverse names)
      ∙ sym w.splits in
    let same : map normal (reverse names) ++ reverse a ≡ reverse p =
      sym (reverse-reverse (map normal (reverse names) ++ reverse a)) ∙ ap reverse back in
    subst
      (λ (q : PathBuf). walk_up fs q [] ≡ some (record { ancestor = a; trailing = reverse names }))
      same (walk_up_down fs a (reverse names) [] w.found (rw reverse-reverse w.missing))

-- Every path that meets the description is returned: with `resolve-Accepted`, `resolve` succeeds
-- exactly on these.
pub resolve_of_Accepted :
    (fs : Fs) (root : Root) (input : Str) (p : PathBuf)
    → Accepted fs root input p
    → resolve fs root input ≡ ok p
unfolding resolve
resolve_of_Accepted fs root input p a =
    rw
      (
        a.lexically,
        walk_up-Walked_iff fs a.lex a.ancestor a.names a.walked,
        a.resolves,
        starts_with_of_IsInside root.path a.canonical a.inside,
        reverse-reverse,
        push_all-eq-append,
      )
      (ap ok (sym a.result))

-- `resolve` succeeds with `p` exactly when `p` is the canonical form, inside the root, of the
-- deepest existing ancestor of the lexical path, with the missing names behind it.
pub resolve_iff :
    (fs : Fs) (root : Root) (input : Str) (p : PathBuf)
    → (resolve fs root input ≡ ok p) ↔ Accepted fs root input p
resolve_iff fs root input p =
    (resolve-Accepted fs root input p, resolve_of_Accepted fs root input p)
