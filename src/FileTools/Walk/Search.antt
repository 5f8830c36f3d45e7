-- ===== src/FileTools/Walk/Search.antt =====
-- src/fs_ops.rs: `search`, where it answers.
use local_mcp.Common.{ℕ, ◌+◌, ◌≡◌, sym, ap, ◌∙◌, subst, Option, none, Bool}
use local_mcp.Common.Str.{Str, bytes}
use local_mcp.Common.Result.{ok, map_err, map_err-eq-ok, bind-eq-ok, ok-inj}
use local_mcp.FilePath.{PathBuf}
use local_mcp.FilePath.Laws.{IsInside}
use local_mcp.Root.{Root, resolve}
use local_mcp.Root.Resolve.{resolve-IsInside}
use local_mcp.FileTools.{Os, outside, not_a_pattern}
use local_mcp.FileTools.Output.{Call, truncate, AtMost, truncate-AtMost}
use local_mcp.FileTools.Read.{unwrap_or}
use local_mcp.FileTools.Walk.{Walker, Compile, absent, present, search}
use local_mcp.FileTools.Walk.Matches.{all_matches, report, scan-report}

module _ {D : Type 0} (os : Os D) (walk : Walker D) (compile : Compile) (root : Root)
    (pattern : Str) (path : Option Str) (max_results : Option ℕ) (max_output : ℕ) (d : D) where
  -- The pattern and the place of a search.
  pub record Searching : Type 0 where
    pub is_match : Str → Bool
    pub compiled : compile pattern ≡ ok is_match
    pub target : PathBuf
    pub inside : IsInside root.path target
    pub directory : Bool
    pub is_there : os.is_dir d target ≡ ok directory

  -- A search that answers has a pattern that compiles and a path inside the root that is there, and
  -- reports the first matching lines of the walk in their order, as many as the limit allows and one
  -- at least, cut at the limit of the output.
  pub search_ok :
      (r : Call Str)
      → search os walk compile root pattern path max_results max_output d ≡ ok r
      → (s : Searching) × (r
          ≡ truncate
              (report
                (unwrap_or 200 max_results)
                (all_matches os root s.is_match d (walk d s.target none)))
              max_output)
        × AtMost (max_output + 16) r
  unfolding search present
  search_ok r h =
      let (is_match, compiled, h₁) = bind-eq-ok (map_err not_a_pattern (compile pattern)) _ h in
      let (target, found, h₂) =
        bind-eq-ok (map_err outside (resolve (os.fs d) root (unwrap_or (bytes ".") path))) _ h₁ in
      let (directory, is_there, h₃) = bind-eq-ok (map_err (absent _) (os.is_dir d target)) _ h₂ in
      let limit = unwrap_or 200 max_results in
      let same =
        sym (ok-inj h₃)
        ∙ ap (λ (s : Str). truncate s max_output)
            (scan-report os root is_match limit d (walk d target none)) in
      (
        record {
          is_match = is_match;
          compiled = map_err-eq-ok _ _ compiled;
          target = target;
          inside = resolve-IsInside (os.fs d) root _ target (map_err-eq-ok _ _ found);
          directory = directory;
          is_there = map_err-eq-ok _ _ is_there;
        },
        same,
        subst (AtMost (max_output + 16)) (sym same) (truncate-AtMost _ max_output),
      )
