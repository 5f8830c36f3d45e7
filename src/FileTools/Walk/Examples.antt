-- ===== src/FileTools/Walk/Examples.antt =====
-- `list_dir` and `search` of a directory with a subdirectory and a file.
use local_mcp.Common.{◌+◌, ◌≡◌, refl, true, false, none, some, [], ◌∷◌, ◌++◌, ◌==◌, map}
use local_mcp.Common.Str.{Str, bytes, lines, str_eq, trim_reversed}
use local_mcp.Common.Decimal.{decimal, digits}
use local_mcp.Common.Utf8.{from_utf8_lossy, lossy, chunk}
use local_mcp.Common.Result.{ok, err}
use local_mcp.FilePath.{
  PathBuf, root_dir, normal, components, component_eq, join, parent, strip_base, starts_with,
}
use local_mcp.FilePath.Laws.{IsInside}
use local_mcp.Root.{Root, not_found, normalize, lexical, walk_up, push_all, resolve, relativize}
use local_mcp.FileTools.{Os, no_such_path, not_a_pattern, shown}
use local_mcp.FileTools.Output.{returned, truncate, AtMost}
use local_mcp.FileTools.Read.{looks_binary}
use local_mcp.FileTools.Walk.{
  Walker, Compile, directory, regular_file, present, path_eq, entry_line, listing, or_note,
  list_dir, scan_lines, searched, scan_entry, scan, search, stop_note,
}
use local_mcp.FileTools.Walk.Matches.{all_matches, report, concat}
use local_mcp.FileTools.Walk.Search.{Searching, search_ok}
use local_mcp.FileTools.Walk.Listing.{others, list_dir_ok}

abbrev root : Root
root = record { path = root_dir ∷ normal (bytes "srv") ∷ [] }

abbrev os : Os Str
os = record {
  fs = λ d. record { exists = λ p. true; canonicalize = λ p. ok p };
  read = λ d p. ok d;
  read_to_string = λ d p. ok d;
  is_dir = λ d p. ok true;
  create_dir_all = λ p d. (ok tt, d);
  write = λ p content d. (ok tt, content);
}

abbrev walk : Walker Str
walk d p depth =
    record { path = p; file_type = some directory; len = none }
    ∷ record { path = p ++ normal (bytes "sub") ∷ []; file_type = some directory; len = none }
    ∷ record { path = p ++ normal (bytes "f") ∷ []; file_type = some regular_file; len = some 12 }
    ∷ []

-- A pattern of one byte, at the head of a line.
abbrev compile : Compile
compile (b ∷ []) = ok (λ line. elim line [ [] ↦ false | c ∷ s ↦ b == c ])
compile _ = err (bytes "too long")

abbrev text : Str
text = bytes "xa \nb\nxc\n"

listed : list_dir os walk root none none 64 text ≡ ok (returned (bytes "sub/\nf\t12\n"))
unfolding list_dir present listing path_eq entry_line truncate decimal digits resolve lexical
    components normalize join parent starts_with strip_base component_eq str_eq walk_up push_all
    from_utf8_lossy lossy chunk
listed = refl

both :
    search os walk compile root (bytes "x") none none 64 text
    ≡ ok (returned (bytes "f:1:xa\nf:3:xc\n"))
unfolding search present scan scan_entry scan_lines searched looks_binary lines from_utf8_lossy
    lossy chunk trim_reversed shown relativize truncate decimal digits resolve lexical components
    normalize join parent starts_with strip_base component_eq str_eq walk_up push_all
both = refl

-- A limit of 0 lets one match through.
one_for_zero :
    search os walk compile root (bytes "x") none (some 0) 64 text
    ≡ ok (returned (bytes "f:1:xa\n... [stopped at 0 matches]\n"))
unfolding search present scan scan_entry scan_lines searched looks_binary lines from_utf8_lossy
    lossy chunk trim_reversed stop_note shown relativize truncate decimal digits resolve lexical
    components normalize join parent starts_with strip_base component_eq str_eq walk_up push_all
one_for_zero = refl

no_pattern :
    search os walk compile root (bytes "xy") none none 64 text
    ≡ err (not_a_pattern (bytes "too long"))
unfolding search
no_pattern = refl

nowhere :
    list_dir
      (record os { is_dir = λ d p. err not_found })
      walk
      root
      (some (bytes "a/b"))
      none
      64
      text
    ≡ err (no_such_path (bytes "a/b"))
unfolding list_dir present shown relativize resolve lexical components normalize join parent
    starts_with strip_base component_eq str_eq walk_up push_all from_utf8_lossy lossy chunk
nowhere = refl

list_dir_ok_example :
    (target : PathBuf) × IsInside root.path target
    × (os.is_dir text target ≡ ok true)
    × (returned (bytes "sub/\nf\t12\n")
        ≡ truncate
            (or_note
              (bytes "(empty)")
              (concat (map (entry_line target) (others target (walk text target (some 1))))))
            64)
    × AtMost (64 + 16) (returned (bytes "sub/\nf\t12\n"))
list_dir_ok_example =
    list_dir_ok os walk root none none 64 text (returned (bytes "sub/\nf\t12\n")) listed

search_ok_example :
    (s : Searching os walk compile root (bytes "x") none (some 0) 64 text) × (returned
        (bytes "f:1:xa\n... [stopped at 0 matches]\n")
      ≡ truncate (report 0 (all_matches os root s.is_match text (walk text s.target none))) 64)
    × AtMost (64 + 16) (returned (bytes "f:1:xa\n... [stopped at 0 matches]\n"))
search_ok_example =
    search_ok os walk compile root (bytes "x") none (some 0) 64 text
      (returned (bytes "f:1:xa\n... [stopped at 0 matches]\n")) one_for_zero
