-- ===== src/FileTools/Walk/Listing.antt =====
-- src/fs_ops.rs: `list_dir`, where it answers.
use local_mcp.Common.{
  ℕ, ◌+◌, ◌≡◌, refl, sym, ap, ◌∙◌, subst, Option, some, List, [], ◌∷◌, ◌++◌, map, Bool, true,
  Bool-cases, inl, inr, if◌then◌else◌,
}
use local_mcp.Common.Str.{Str, bytes}
use local_mcp.Common.Result.{ok, map_err, map_err-eq-ok, bind-eq-ok, ok-inj, err-ne-ok}
use local_mcp.FilePath.{PathBuf}
use local_mcp.FilePath.Laws.{IsInside}
use local_mcp.Root.{Root, resolve}
use local_mcp.Root.Resolve.{resolve-IsInside}
use local_mcp.FileTools.{Os, outside}
use local_mcp.FileTools.Output.{Call, truncate, AtMost, truncate-AtMost}
use local_mcp.FileTools.Read.{unwrap_or}
use local_mcp.FileTools.Walk.{
  Entry, Walker, absent, present, path_eq, entry_line, listing, or_note, list_dir,
}
use local_mcp.FileTools.Walk.Matches.{concat}

-- The entries of a walk without the directory itself.
abbrev pub others : PathBuf → List Entry → List Entry
others resolved [] = []
others resolved (e ∷ entries) =
    if path_eq e.path resolved then others resolved entries else e ∷ others resolved entries

listing-others :
    (resolved : PathBuf) (entries : List Entry)
    → listing resolved entries ≡ concat (map (entry_line resolved) (others resolved entries))
unfolding listing
listing-others resolved [] = refl
listing-others resolved (e ∷ entries) = elim (Bool-cases (path_eq e.path resolved)) [
  | inl itself ↦ rw (itself, listing) (listing-others resolved entries)
  | inr other ↦
      rw (other, listing)
        (ap (λ (s : Str). entry_line resolved e ++ s) (listing-others resolved entries))
]

module _ {D : Type 0} (os : Os D) (walk : Walker D) (root : Root) (path : Option Str)
    (depth : Option ℕ) (max_output : ℕ) (d : D) where
  -- A listing that is answered is of a directory inside the root: one line for every entry of the
  -- walk to the depth that is asked for, in its order and without the directory itself, cut at the
  -- limit of the output.
  pub list_dir_ok :
      (r : Call Str)
      → list_dir os walk root path depth max_output d ≡ ok r
      → (target : PathBuf) × IsInside root.path target
        × (os.is_dir d target ≡ ok true)
        × (r
            ≡ truncate
                (or_note (bytes "(empty)") (
                  concat (
                    map
                      (entry_line target)
                      (others target (walk d target (some (unwrap_or 1 depth)))))))
                max_output)
        × AtMost (max_output + 16) r
  unfolding list_dir present
  list_dir_ok r h =
      let (target, found, h₁) =
        bind-eq-ok (map_err outside (resolve (os.fs d) root (unwrap_or (bytes ".") path))) _ h in
      let (can_list, is_there, h₂) = bind-eq-ok (map_err (absent _) (os.is_dir d target)) _ h₁ in
      let answer = map_err-eq-ok _ _ is_there in
      elim (Bool-cases can_list) [
        | inr refused ↦ err-ne-ok _ _ (rw refused at h₂)
        | inl listed ↦
            let same =
              sym (ok-inj (rw listed at h₂))
              ∙ ap (λ (s : Str). truncate (or_note (bytes "(empty)") s) max_output)
                  (listing-others target (walk d target (some (unwrap_or 1 depth)))) in
            (
              target,
              resolve-IsInside (os.fs d) root _ target (map_err-eq-ok _ _ found),
              answer ∙ ap (λ (b : Bool). ok b) listed,
              same,
              subst (AtMost (max_output + 16)) (sym same) (truncate-AtMost _ max_output),
            )
      ]
