-- ===== src/FileTools/Write.antt =====
-- src/fs_ops.rs: `write_file`, where it succeeds.
use local_mcp.Common.{◌≡◌, sym, ap, ◌∙◌, subst, length}
use local_mcp.Common.Str.{Str, bytes}
use local_mcp.Common.Result.{ok, map_err, map_err-eq-ok, ok-inj}
use local_mcp.FilePath.{PathBuf, parent}
use local_mcp.FilePath.Laws.{IsInside}
use local_mcp.Root.{Root, resolve}
use local_mcp.Root.Resolve.{resolve-IsInside}
use local_mcp.FileTools.{
  Os, outside, parent_failed, cannot, shown, create_parent, wrote, write_resolved, write_file,
}
use local_mcp.FileTools.Edit.{after_ok}

-- The file that was written, inside the root: its parent directory was made first, and then the
-- whole content was written; the answer says how long the content is, and names the file.
pub record Written {D : Type 0} (os : Os D) (root : Root) (content answer : Str) (d d' : D)
    : Type 0 where
  pub target : PathBuf
  pub inside : IsInside root.path target
  pub prepared : D
  pub made : create_parent os (parent target) d ≡ (ok tt, prepared)
  pub written : os.write target content prepared ≡ (ok tt, d')
  pub answers : answer ≡ wrote (length content) (shown root target)

module _ {D : Type 0} (os : Os D) (root : Root) where
  write_resolved_ok :
      (content : Str) (target : PathBuf) (d : D) (answer : Str)
      → IsInside root.path target
      → (write_resolved os root target content d).0 ≡ ok answer
      → Written os root content answer d (write_resolved os root target content d).1
  unfolding write_resolved
  write_resolved_ok content target d answer within h =
      let r₁ =
        after_ok _
          (map_err (parent_failed (shown root target)) (create_parent os (parent target) d).0)
          (create_parent os (parent target) d).1 answer h in
      let d₁ : D = (create_parent os (parent target) d).1 in
      let r₂ =
        after_ok _
          (map_err (cannot (bytes "write") (shown root target)) (os.write target content d₁).0)
          (os.write target content d₁).1 answer r₁.rest in
      let made : (create_parent os (parent target) d).0 ≡ ok tt = map_err-eq-ok _ _ r₁.first in
      let done : (os.write target content d₁).0 ≡ ok tt = map_err-eq-ok _ _ r₂.first in
      let state = ap (λ x. x.1) (r₁.same ∙ r₂.same) in
      record {
        target = target;
        inside = within;
        prepared = d₁;
        made = λ i. (made i, d₁);
        written = λ i. (done i, sym state i);
        answers = sym (ok-inj r₂.rest);
      }

  -- A write that succeeds has made the parent directory of a file inside the root and then written
  -- the whole content to that file; nothing else has happened to the disk, and the answer names the
  -- file and the length of the content.
  pub write_file_ok :
      (path content : Str) (d : D) (answer : Str)
      → (write_file os root path content d).0 ≡ ok answer
      → Written os root content answer d (write_file os root path content d).1
  unfolding write_file
  write_file_ok path content d answer h =
      let r = after_ok _ (map_err outside (resolve (os.fs d) root path)) d answer h in
      let found = map_err-eq-ok _ _ r.first in
      subst (Written os root content answer d) (sym (ap (λ x. x.1) r.same)) (
        write_resolved_ok content r.value d answer
          (resolve-IsInside (os.fs d) root path r.value found) r.rest)
