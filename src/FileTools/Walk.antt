-- ===== src/FileTools/Walk.antt =====
-- src/fs_ops.rs: `present`, `list_dir` and `search`. The directory walker and the regular
-- expressions are parameters.
pub mod Matches
pub mod Search
pub mod Listing
mod Examples
use local_mcp.Common.{
  ℕ, zero, suc, ◌+◌, Bool, true, false, ◌&&◌, Option, none, some, List, [], ◌∷◌, ◌++◌, leb,
  if◌then◌else◌,
}
use local_mcp.Common.Str.{Str, bytes, lines, is_empty, trim_end}
use local_mcp.Common.Decimal.{decimal}
use local_mcp.Common.Utf8.{from_utf8_lossy}
use local_mcp.Common.Result.{Result, ok, err, map_err, ◌>>=◌}
use local_mcp.FilePath.{Component, PathBuf, component_eq, strip_base}
use local_mcp.Root.{IoError, not_found, Root, resolve}
use local_mcp.FileTools.{
  Os, ToolError, outside, failed, no_such_path, a_file, not_a_pattern, display, shown,
}
use local_mcp.FileTools.Output.{Call, truncate}
use local_mcp.FileTools.Read.{looks_binary, unwrap_or}

pub data FileType : Type 0 where
  directory regular_file other_type : FileType

-- An entry of a walk, with what `file_type` and `metadata` answer for it.
pub record Entry : Type 0 where
  pub path : PathBuf
  pub file_type : Option FileType
  pub len : Option ℕ

-- The entries that `WalkBuilder::new(path).hidden(false)` yields without an error, in their order,
-- with the depth of `max_depth`.
abbrev pub Walker : Type 0 → Type 0
Walker D = D → PathBuf → Option ℕ → List Entry

-- `Regex::new`, with the text of its error and `is_match`
abbrev pub Compile : Type 0
Compile = Str → Result Str (Str → Bool)

abbrev pub absent : Str → IoError → ToolError
absent shown not_found = no_such_path shown
absent shown e = failed (bytes "open") shown e

-- `present`, of whose metadata only `is_dir` is read
unfoldable pub present : {D : Type 0} → Os D → Root → PathBuf → D → Result ToolError Bool
present os root resolved d = map_err (absent (shown root resolved)) (os.is_dir d resolved)

unfoldable pub path_eq : PathBuf → PathBuf → Bool
path_eq [] [] = true
path_eq [] (d ∷ q) = false
path_eq (c ∷ p) [] = false
path_eq (c ∷ p) (d ∷ q) = component_eq c d && path_eq p q

abbrev pub is_dir : Entry → Bool
is_dir e = elim e.file_type [ some directory ↦ true | _ ↦ false ]

abbrev pub is_file : Entry → Bool
is_file e = elim e.file_type [ some regular_file ↦ true | _ ↦ false ]

-- A directory with a slash, another entry with its size.
unfoldable pub entry_line : PathBuf → Entry → Str
entry_line resolved e =
    let relative = display (unwrap_or e.path (strip_base resolved e.path)) in
    if is_dir e
    then relative ++ bytes "/\n"
    else relative ++ 9 ∷ decimal (unwrap_or 0 e.len) ++ 10 ∷ []

-- The loop of `list_dir`
unfoldable pub listing : PathBuf → List Entry → Str
listing resolved [] = []
listing resolved (e ∷ entries) =
    let rest = listing resolved entries in
    if path_eq e.path resolved then rest else entry_line resolved e ++ rest

abbrev pub or_note : Str → Str → Str
or_note note out = if is_empty out then note else out

unfoldable pub list_dir :
    {D : Type 0}
    → Os D
    → Walker D
    → Root
    → Option Str
    → Option ℕ
    → ℕ
    → D
    → Result ToolError (Call Str)
list_dir os walk root path depth max_output d = do
  resolved ← map_err outside (resolve (os.fs d) root (unwrap_or (bytes ".") path))
  can_list ← present os root resolved d
  if can_list
      then ok (
          truncate
            (or_note (bytes "(empty)")
              (listing resolved (walk d resolved (some (unwrap_or 1 depth)))))
            max_output)
      else err (a_file (shown root resolved))

-- The variables of the loops of `search`, or the text of its early return.
pub data Scan : Type 0 where
  going : Str → ℕ → Scan
  stopped : Str → Scan

abbrev pub hit_line : Str → ℕ → Str → Str
hit_line shown number line =
    shown ++ bytes ":" ++ decimal number ++ bytes ":" ++ trim_end line ++ 10 ∷ []

unfoldable pub stop_note : ℕ → Str
stop_note limit = bytes "... [stopped at " ++ decimal limit ++ bytes " matches]\n"

-- The inner loop, from the line with the number `n` on
unfoldable pub scan_lines : Str → (Str → Bool) → ℕ → ℕ → List Str → Str → ℕ → Scan
scan_lines shown is_match limit n [] out hits = going out hits
scan_lines shown is_match limit n (line ∷ rest) out hits = elim (is_match line) [
  | false ↦ scan_lines shown is_match limit (suc n) rest out hits
  | true ↦ elim (leb limit (suc hits)) [
    | true ↦ stopped ((out ++ hit_line shown n line) ++ stop_note limit)
    | false ↦ scan_lines shown is_match limit (suc n) rest (out ++ hit_line shown n line) (suc hits)
  ]
]

-- What of an entry is searched: the text of a file that can be read and is not binary.
unfoldable pub searched : {D : Type 0} → Os D → D → Entry → Option Str
searched os d e =
    if is_file e
    then elim (os.read d e.path) [
      | err _ ↦ none
      | ok content ↦ if looks_binary content then none else some (from_utf8_lossy content)
    ]
    else none

unfoldable pub scan_entry :
    {D : Type 0} → Os D → Root → (Str → Bool) → ℕ → D → Entry → Str → ℕ → Scan
scan_entry os root is_match limit d e out hits = elim (searched os d e) [
  | none ↦ going out hits
  | some text ↦ scan_lines (shown root e.path) is_match limit 1 (lines text) out hits
]

-- The rest of a loop, behind what may return from `search`.
abbrev pub and_then : Scan → (Str → ℕ → Scan) → Scan
and_then (going out hits) f = f out hits
and_then (stopped text) f = stopped text

-- The outer loop
unfoldable pub scan :
    {D : Type 0} → Os D → Root → (Str → Bool) → ℕ → D → List Entry → Str → ℕ → Scan
scan os root is_match limit d [] out hits = going out hits
scan os root is_match limit d (e ∷ entries) out hits =
    and_then (scan_entry os root is_match limit d e out hits)
      (scan os root is_match limit d entries)

abbrev pub scanned : Scan → Str
scanned (going out hits) = or_note (bytes "(no matches)") out
scanned (stopped text) = text

unfoldable pub search :
    {D : Type 0}
    → Os D
    → Walker D
    → Compile
    → Root
    → Str
    → Option Str
    → Option ℕ
    → ℕ
    → D
    → Result ToolError (Call Str)
search os walk compile root pattern path max_results max_output d = do
  is_match ← map_err not_a_pattern (compile pattern)
  resolved ← map_err outside (resolve (os.fs d) root (unwrap_or (bytes ".") path))
  _ ← present os root resolved d
  ok (
      truncate
        (scanned (scan os root is_match (unwrap_or 200 max_results) d (walk d resolved none) [] 0))
        max_output)
