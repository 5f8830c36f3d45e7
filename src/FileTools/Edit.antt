-- ===== src/FileTools/Edit.antt =====
-- src/fs_ops.rs: `edit_file`, where it succeeds.
use local_mcp.Common.{ℕ, zero, suc, ◌≤◌, length, ◌≡◌, refl, sym, ap, ◌∙◌, [], ◌∷◌, ◌++◌, subst}
use local_mcp.Common.Str.{Str}
use local_mcp.Common.Result.{Result, ok, err, map_err, map_err-eq-ok, ok-inj}
use local_mcp.FilePath.{PathBuf}
use local_mcp.FilePath.Laws.{IsInside}
use local_mcp.Root.{Root, resolve}
use local_mcp.Root.Resolve.{resolve-IsInside}
use local_mcp.FileTools.{
  Os, ToolError, outside, shown, edited, Act, after, count_matches, replace, check_unique,
  edit_resolved, edit_file,
}
use local_mcp.FileTools.Replace.{Occurs, replace_unique}

module _ {D A B : Type 0} (f : A → Act D B) where
  -- A step that returned, and the rest that ran from there.
  pub record Ran (r : Result ToolError A) (d : D) (b : B) : Type 0 where
    pub value : A
    pub first : r ≡ ok value
    pub rest : (f value d).0 ≡ ok b
    pub same : after r f d ≡ f value d

  pub after_ok : (r : Result ToolError A) (d : D) (b : B) → (after r f d).0 ≡ ok b → Ran r d b
  after_ok (ok a) d b h = record { value = a; first = refl; rest = h; same = refl }
  after_ok (err e) d b h = cc

check_unique-one : (s : Str) (n : ℕ) → check_unique s n ≡ ok tt → n ≡ 1
unfolding check_unique
check_unique-one s zero h = cc
check_unique-one s (suc zero) h = refl
check_unique-one s (suc (suc n)) h = cc

-- The file that was edited, inside the root; its text before, with one place for the old text, which
-- occurs nowhere further to the left and nowhere behind it; and the write of the same text with the
-- new one in that place, which is all that happened to the disk. The answer names the file.
pub record Edited {D : Type 0} (os : Os D) (root : Root) (path old_text new_text answer : Str)
    (d d' : D) : Type 0 where
  pub target : PathBuf
  pub inside : IsInside root.path target
  pub before : Str
  pub behind : Str
  pub leftmost :
      (u v : Str) → Occurs old_text (before ++ old_text ++ behind) u v → length before ≤ length u
  pub alone : (u v : Str) → ¬ Occurs old_text behind u v
  pub read : os.read_to_string d target ≡ ok (before ++ old_text ++ behind)
  pub answers : answer ≡ edited (shown root target)
  pub wrote : os.write target (before ++ new_text ++ behind) d ≡ (ok tt, d')

module _ {D : Type 0} (os : Os D) (root : Root) where
  edit_resolved_ok :
      (path : Str) (a : ℕ) (p new_text answer : Str) (target : PathBuf) (d : D)
      → IsInside root.path target
      → (edit_resolved os root (a ∷ p) new_text target d).0 ≡ ok answer
      → Edited os root path
          (a ∷ p)
          new_text
          answer
          d
          (edit_resolved os root (a ∷ p) new_text target d).1
  unfolding edit_resolved
  edit_resolved_ok path a p new_text answer target d within h =
      let r₁ = after_ok _ (map_err _ (os.read_to_string d target)) d answer h in
      let r₂ = after_ok _ (check_unique _ (count_matches (a ∷ p) 0 r₁.value)) d answer r₁.rest in
      let content : Str = replace (a ∷ p) new_text 0 r₁.value in
      let r₃ =
        after_ok _ (map_err _ (os.write target content d).0) (os.write target content d).1 answer
          r₂.rest in
      let split = replace_unique a p new_text r₁.value (check_unique-one _ _ r₂.first) in
      let done : (os.write target (replace (a ∷ p) new_text 0 r₁.value) d).0 ≡ ok tt =
        map_err-eq-ok _ _ r₃.first in
      let state = ap (λ x. x.1) (r₁.same ∙ r₂.same ∙ r₃.same) in
      record {
        target = target;
        inside = within;
        before = split.before;
        behind = split.behind;
        leftmost = λ u v e. split.leftmost u v (split.splits ∙ e);
        alone = split.alone;
        read = map_err-eq-ok _ _ r₁.first ∙ ap ok split.splits;
        answers = sym (ok-inj r₃.rest);
        wrote =
            ap (λ (t : Str). os.write target t d) (sym split.replaced)
            ∙ (λ i. (done i, sym state i));
      }

  -- An edit that succeeds has found the old text in a file inside the root, where it occurs nowhere
  -- further to the left and nowhere in what follows it (only an occurrence that overlaps it goes
  -- unseen), and has written the file with that one place changed; nothing else has happened to the
  -- disk, and the answer names the file.
  pub edit_file_ok :
      (path old_text new_text answer : Str) (d : D)
      → (edit_file os root path old_text new_text d).0 ≡ ok answer
      → Edited os root path old_text new_text answer d
          (edit_file os root path old_text new_text d).1
  unfolding edit_file
  edit_file_ok path [] new_text answer d h = cc
  edit_file_ok path (a ∷ p) new_text answer d h =
      let r = after_ok _ (map_err outside (resolve (os.fs d) root path)) d answer h in
      let found = map_err-eq-ok _ _ r.first in
      subst (Edited os root path (a ∷ p) new_text answer d) (sym (ap (λ x. x.1) r.same)) (
        edit_resolved_ok path a p new_text answer r.value d
          (resolve-IsInside (os.fs d) root path r.value found) r.rest)
