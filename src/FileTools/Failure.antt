-- ===== src/FileTools/Failure.antt =====
-- src/fs_ops.rs: `edit_file`, where it fails.
use local_mcp.Common.{◌≡◌, refl, sym, ◌⊎◌, inl, inr, [], ◌∷◌}
use local_mcp.Common.Str.{Str, bytes}
use local_mcp.Common.Result.{Result, ok, err, map_err, map_err-eq-err}
use local_mcp.FilePath.{PathBuf}
use local_mcp.FilePath.Laws.{IsInside}
use local_mcp.Root.{IoError, Root, resolve}
use local_mcp.Root.Resolve.{resolve-IsInside}
use local_mcp.Common.Result.{map_err-eq-ok}
use local_mcp.FileTools.{
  Os, ToolError, outside, cannot, shown, edited, Act, after, count_matches, replace, check_unique,
  edit_resolved, edit_file,
}

-- The disk is as it was, or the one call that changed it is a write inside the root that failed.
abbrev pub Untouched : {D : Type 0} → Os D → Root → D → D → Type 0
Untouched os root d d' =
    (d' ≡ d)
    ⊎ ((target : PathBuf) × (content : Str) × (e : IoError) × IsInside root.path target
        × (os.write target content d ≡ (err e, d')))

-- A step in front of an action that leaves the disk alone or fails in its write.
after-Untouched :
    {D A B : Type 0} (os : Os D) (root : Root) (r : Result ToolError A) (f : A → Act D B) (d : D)
    (e : ToolError)
    → ((a : A) → r ≡ ok a → (f a d).0 ≡ err e → Untouched os root d (f a d).1)
    → (after r f d).0 ≡ err e
    → Untouched os root d (after r f d).1
after-Untouched os root (ok a) f d e k h = k a refl h
after-Untouched os root (err g) f d e k h = inl refl

module _ {D A B : Type 0} (b : B) (d : D) where
  abbrev answering : A → Act D B
  answering a d' = (ok b, d')

  -- A step in front of an answer: where it fails the step has failed, and the disk is the step's.
  answer_err :
      (r : Result ToolError A) (e : ToolError)
      → (after r answering d).0 ≡ err e
      → (g : ToolError) × (r ≡ err g)
  answer_err (ok a) e h = cc
  answer_err (err g) e h = (g, refl)

  answer_disk : (r : Result ToolError A) → (after r answering d).1 ≡ d
  answer_disk (ok a) = refl
  answer_disk (err g) = refl

module _ {D : Type 0} (os : Os D) (root : Root) where
  edit_resolved-Untouched :
      (old_text new_text : Str) (target : PathBuf) (d : D) (e : ToolError)
      → IsInside root.path target
      → (edit_resolved os root old_text new_text target d).0 ≡ err e
      → Untouched os root d (edit_resolved os root old_text new_text target d).1
  unfolding edit_resolved
  edit_resolved-Untouched old_text new_text target d e within h =
      after-Untouched os root (map_err _ (os.read_to_string d target)) _ d e
        (λ current _ h₁.
          after-Untouched os root (check_unique _ (count_matches old_text 0 current)) _ d e
            (λ _ _ h₂.
              let content : Str = replace old_text new_text 0 current in
              let (w, made) = os.write target content d in
              let step = map_err (cannot (bytes "write") (shown root target)) w in
              let (g, refused) = answer_err _ made step e h₂ in
              let (io, failed) = map_err-eq-err _ w refused in
              inr (
                target,
                content,
                io,
                within,
                λ i. (failed i, sym (answer_disk (edited (shown root target)) made step) i),
              ))
            h₁)
        h

  -- An edit that fails has left the disk alone, unless what failed is the write itself, of a file
  -- inside the root.
  pub edit_file_err :
      (path old_text new_text : Str) (d : D) (e : ToolError)
      → (edit_file os root path old_text new_text d).0 ≡ err e
      → Untouched os root d (edit_file os root path old_text new_text d).1
  unfolding edit_file
  edit_file_err path [] new_text d e h = inl refl
  edit_file_err path (a ∷ p) new_text d e h =
      after-Untouched os root (map_err outside (resolve (os.fs d) root path)) _ d e
        (λ target found h₁.
          edit_resolved-Untouched (a ∷ p) new_text target d e
            (resolve-IsInside (os.fs d) root path target (map_err-eq-ok _ _ found)) h₁)
        h
