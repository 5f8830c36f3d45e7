-- ===== src/FileTools/Replace.antt =====
-- src/fs_ops.rs: the counting and replacing of `edit_file`.
use local_mcp.Common.{
  ℕ, zero, suc, ◌-◌, ◌≤◌, ◌≡◌, ◌≢◌, refl, sym, ap, ◌∙◌, inl, inr, none, some, Option-cases, [], ◌∷◌,
  ◌++◌, length, drop, arith,
}
use local_mcp.Common.Str.{Str, strip_prefix, strip_prefix-append, strip_prefix-eq-some}
use local_mcp.FileTools.{count_matches, replace}

suc-inj : (m n : ℕ) → suc m ≡ suc n → m ≡ n
suc-inj m n h = omega (arith, h)

-- Without a match nothing is replaced.
replace-none :
    (pattern with : Str) (skip : ℕ) (s : Str)
    → count_matches pattern skip s ≡ 0
    → replace pattern with skip s ≡ drop skip s
unfolding count_matches replace
replace-none pattern with zero [] h = refl
replace-none pattern with (suc skip) [] h = refl
replace-none pattern with (suc skip) (b ∷ s) h = replace-none pattern with skip s h
replace-none pattern with zero (b ∷ s) h = elim (Option-cases (strip_prefix pattern (b ∷ s))) [
  | inl missing ↦
      rw (missing, replace)
        (ap (λ (t : Str). b ∷ t)
          (replace-none pattern with zero s (rw (missing, count_matches) at h)))
  | inr (t, found) ↦
      let clash : suc (count_matches pattern (length pattern - 1) s) ≡ 0 =
        rw (found, count_matches) at h in
      absurd (omega (arith, clash))
]

drop-append : (s t : Str) → drop (length s) (s ++ t) ≡ t
drop-append [] t = refl
drop-append (b ∷ s) t = drop-append s t

-- What is left of a text behind the bytes that a match has taken.
count_matches-drop :
    (pattern : Str) (skip : ℕ) (s : Str)
    → count_matches pattern skip s ≡ count_matches pattern 0 (drop skip s)
unfolding count_matches
count_matches-drop pattern zero s = refl
count_matches-drop pattern (suc skip) [] = refl
count_matches-drop pattern (suc skip) (b ∷ s) = count_matches-drop pattern skip s

-- A text that is somewhere is counted.
count_matches-some : (a : ℕ) (p u v : Str) → count_matches (a ∷ p) 0 (u ++ (a ∷ p) ++ v) ≢ 0
unfolding count_matches
count_matches-some a p [] v h =
    let clash : suc (count_matches (a ∷ p) (length (a ∷ p) - 1) (p ++ v)) ≡ 0 =
      rw (strip_prefix-append (a ∷ p) v, count_matches) at h in
    absurd (omega (arith, clash))
count_matches-some a p (b ∷ u) v h =
    elim (Option-cases (strip_prefix (a ∷ p) (b ∷ u ++ (a ∷ p) ++ v))) [
      | inl missing ↦ count_matches-some a p u v (rw (missing, count_matches) at h)
      | inr (t, found) ↦
          let clash : suc (count_matches (a ∷ p) (length (a ∷ p) - 1) (u ++ (a ∷ p) ++ v)) ≡ 0 =
            rw (found, count_matches) at h in
          absurd (omega (arith, clash))
    ]

-- Every place where a text occurs in another.
abbrev pub Occurs : Str → Str → Str → Str → Type 0
Occurs pattern s u v = s ≡ u ++ pattern ++ v

-- The one match, and what stands around it: the pattern occurs nowhere further to the left, and
-- nowhere in what is behind it.
pub record Split (pattern with s : Str) : Type 0 where
  pub before : Str
  pub behind : Str
  pub leftmost : (u v : Str) → Occurs pattern s u v → length before ≤ length u
  pub alone : (u v : Str) → ¬ Occurs pattern behind u v
  pub splits : s ≡ before ++ pattern ++ behind
  pub replaced : replace pattern with 0 s ≡ before ++ with ++ behind

module _ (a : ℕ) (p : Str) (with : Str) where
  here :
      (b : ℕ) (s t : Str)
      → strip_prefix (a ∷ p) (b ∷ s) ≡ some t
      → count_matches (a ∷ p) (length (a ∷ p) - 1) s ≡ 0
      → (b ∷ s ≡ (a ∷ p) ++ t)
        × (count_matches (a ∷ p) 0 t ≡ 0)
        × (replace (a ∷ p) with (length (a ∷ p) - 1) s ≡ t)
  here b s t found none_left =
      let same : b ∷ s ≡ (a ∷ p) ++ t = strip_prefix-eq-some (a ∷ p) (b ∷ s) t found in
      let pred : length (a ∷ p) - 1 ≡ length p = omega arith in
      let tail : s ≡ p ++ t = ap (λ (l : Str). drop 1 l) same in
      let rest : drop (length (a ∷ p) - 1) s ≡ t =
        ap (λ (n : ℕ). drop n s) pred
        ∙ ap (λ (l : Str). drop (length p) l) tail
        ∙ drop-append p t in
      (
        same,
        ap (λ (l : Str). count_matches (a ∷ p) 0 l) (sym rest)
            ∙ sym (count_matches-drop (a ∷ p) (length (a ∷ p) - 1) s)
            ∙ none_left,
        replace-none (a ∷ p) with (length (a ∷ p) - 1) s none_left ∙ rest,
      )

  -- Where the pattern does not begin a text, it occurs further on.
  later_only :
      (b : ℕ) (s u v : Str)
      → strip_prefix (a ∷ p) (b ∷ s) ≡ none
      → Occurs (a ∷ p) (b ∷ s) u v
      → (u' : Str) × (length u ≡ suc (length u')) × Occurs (a ∷ p) s u' v
  later_only b s [] v missing e =
      let clash : none ≡ some v =
        sym missing ∙ ap (strip_prefix (a ∷ p)) e ∙ strip_prefix-append (a ∷ p) v in
      cc
  later_only b s (c ∷ u) v missing e = (u, refl, ap (λ (l : Str). drop 1 l) e)

  -- A text with exactly one match is split by it, and `replace` puts the new text in its place.
  pub replace_unique : (s : Str) → count_matches (a ∷ p) 0 s ≡ 1 → Split (a ∷ p) with s
  unfolding count_matches replace
  replace_unique [] h = absurd (omega (arith, h))
  replace_unique (b ∷ s) h = elim (Option-cases (strip_prefix (a ∷ p) (b ∷ s))) [
    | inl missing ↦
        let rest = replace_unique s (rw (missing, count_matches) at h) in
        record {
          before = b ∷ rest.before;
          behind = rest.behind;
          leftmost = λ u v e.
              let (u', longer, occurs) = later_only b s u v missing e in
              let shorter = rest.leftmost u' v occurs in omega (arith, longer, shorter);
          alone = rest.alone;
          splits = ap (λ (l : Str). b ∷ l) rest.splits;
          replaced = rw (missing, replace) (ap (λ (l : Str). b ∷ l) rest.replaced);
        }
    | inr (t, found) ↦
        let one : suc (count_matches (a ∷ p) (length (a ∷ p) - 1) s) ≡ 1 =
          rw (found, count_matches) at h in
        let (same, none_behind, gone) = here b s t found (suc-inj _ 0 one) in
        record {
          before = [];
          behind = t;
          leftmost = λ u v e. omega arith;
          alone = λ u v e.
              count_matches-some a p u v
                (ap (λ (l : Str). count_matches (a ∷ p) 0 l) (sym e) ∙ none_behind);
          splits = same;
          replaced = rw (found, replace) (ap (λ (l : Str). with ++ l) gone);
        }
  ]
