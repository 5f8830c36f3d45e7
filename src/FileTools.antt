-- ===== src/FileTools.antt =====
-- src/fs_ops.rs: `write_file`, `edit_file` and what all file tools share, with the texts of their
-- errors as constructors. The disk `D` and the operating system's calls on it are parameters.
pub mod Replace
pub mod Edit
pub mod Write
pub mod Failure
pub mod Output
pub mod Read
pub mod Walk
mod Examples
use local_mcp.Common.{
  ℕ, zero, suc, ◌+◌, ◌-◌, Bool, Option, none, some, List, [], ◌∷◌, ◌++◌, ◌==◌, length,
  if◌then◌else◌,
}
use local_mcp.Common.Str.{Str, bytes, is_empty, strip_prefix}
use local_mcp.Common.Decimal.{decimal}
use local_mcp.Common.Utf8.{from_utf8_lossy}
use local_mcp.Common.Result.{Result, ok, err, map_err}
use local_mcp.FilePath.{Component, prefix, root_dir, cur_dir, parent_dir, normal, PathBuf, parent}
use local_mcp.Root.{
  IoError, not_found, is_a_directory, permission_denied, other, RootError, Fs, Root, resolve,
  relativize,
}

-- What the operating system does with a disk. A call that fails may have changed it.
pub record Os (D : Type 0) : Type 0 where
  pub fs : D → Fs
  pub read : D → PathBuf → Result IoError Str
  pub read_to_string : D → PathBuf → Result IoError Str
  -- `metadata` with `is_dir`
  pub is_dir : D → PathBuf → Result IoError Bool
  pub create_dir_all : PathBuf → D → Result IoError (Unit {0}) × D
  pub write : PathBuf → Str → D → Result IoError (Unit {0}) × D

pub data ToolError : Type 0 where
  outside : RootError → ToolError
  no_such_file a_directory : Str → ToolError
  not_allowed : Str → Str → ToolError
  failed : Str → Str → IoError → ToolError
  parent_failed : Str → IoError → ToolError
  old_text_empty : ToolError
  old_text_absent : Str → ToolError
  old_text_ambiguous : ℕ → Str → ToolError
  binary : Str → ℕ → ToolError
  offset_past_end : ℕ → Str → ℕ → ToolError
  no_such_path a_file : Str → ToolError
  not_a_pattern : Str → ToolError

abbrev component_text : Component → Str
component_text (prefix s) = s
component_text root_dir = bytes "/"
component_text cur_dir = bytes "."
component_text parent_dir = bytes ".."
component_text (normal s) = s

-- The text of a path without a root.
abbrev relative_text : PathBuf → Str
relative_text [] = []
relative_text (c ∷ []) = component_text c
relative_text (c ∷ p) = component_text c ++ bytes "/" ++ relative_text p

abbrev path_text : PathBuf → Str
path_text (root_dir ∷ p) = bytes "/" ++ relative_text p
path_text p = relative_text p

-- `path.display()`, which shows bytes that are not UTF-8 as replacement characters
abbrev pub display : PathBuf → Str
display p = from_utf8_lossy (path_text p)

unfoldable pub shown : Root → PathBuf → Str
shown root path =
    let relative = display (relativize root path) in
    if is_empty relative then bytes "." else relative

unfoldable pub cannot : Str → Str → IoError → ToolError
cannot verb shown not_found = no_such_file shown
cannot verb shown is_a_directory = a_directory shown
cannot verb shown permission_denied = not_allowed verb shown
cannot verb shown (other text) = failed verb shown (other text)

-- An action on the disk, and `?` in front of the rest of one.
abbrev pub Act : Type 0 → Type 0 → Type 0
Act D A = D → Result ToolError A × D

abbrev pub after : {D A B : Type 0} → Result ToolError A → (A → Act D B) → Act D B
after (ok a) f d = f a d
after (err e) f d = (err e, d)

abbrev pub create_parent : {D : Type 0} → Os D → Option PathBuf → D → Result IoError (Unit {0}) × D
create_parent os none d = (ok tt, d)
create_parent os (some p) d = os.create_dir_all p d

abbrev pub wrote : ℕ → Str → Str
wrote n shown = bytes "wrote " ++ decimal n ++ bytes " bytes to " ++ shown

-- `write_file` behind `resolve`
unfoldable pub write_resolved : {D : Type 0} → Os D → Root → PathBuf → Str → Act D Str
write_resolved os root resolved content d =
    let (r, d') = create_parent os (parent resolved) d in
    after (map_err (parent_failed (shown root resolved)) r)
      (λ _ d₁.
        let (w, d₂) = os.write resolved content d₁ in
        after (map_err (cannot (bytes "write") (shown root resolved)) w)
          (λ _ d₃. (ok (wrote (length content) (shown root resolved)), d₃)) d₂)
      d'

unfoldable pub write_file : {D : Type 0} → Os D → Root → Str → Str → Act D Str
write_file os root path content d =
    after (map_err outside (resolve (os.fs d) root path))
      (λ resolved. write_resolved os root resolved content) d

-- `text.matches(pattern).count()`, for a pattern that is not empty: `skip` bytes of a match are
-- still to be passed over.
unfoldable pub count_matches : Str → ℕ → Str → ℕ
count_matches pattern skip [] = 0
count_matches pattern (suc skip) (b ∷ s) = count_matches pattern skip s
count_matches pattern zero (b ∷ s) =
    let found = count_matches pattern (length pattern - 1) s in
    let rest = count_matches pattern 0 s in
    elim (strip_prefix pattern (b ∷ s)) [ none ↦ rest | some _ ↦ suc found ]

-- `text.replace(pattern, with)` in the same way
unfoldable pub replace : Str → Str → ℕ → Str → Str
replace pattern with skip [] = []
replace pattern with (suc skip) (b ∷ s) = replace pattern with skip s
replace pattern with zero (b ∷ s) =
    let found = replace pattern with (length pattern - 1) s in
    let rest = replace pattern with 0 s in
    elim (strip_prefix pattern (b ∷ s)) [ none ↦ b ∷ rest | some _ ↦ with ++ found ]

-- The test that the edit is not ambiguous.
unfoldable pub check_unique : Str → ℕ → Result ToolError (Unit {0})
check_unique shown zero = err (old_text_absent shown)
check_unique shown (suc zero) = ok tt
check_unique shown (suc (suc n)) = err (old_text_ambiguous (suc (suc n)) shown)

abbrev pub edited : Str → Str
edited shown = bytes "edited " ++ shown

-- `edit_file` behind `resolve`
unfoldable pub edit_resolved : {D : Type 0} → Os D → Root → Str → Str → PathBuf → Act D Str
edit_resolved os root old_text new_text resolved d =
    after (map_err (cannot (bytes "read") (shown root resolved)) (os.read_to_string d resolved))
      (λ current d₁.
        after (check_unique (shown root resolved) (count_matches old_text 0 current))
          (λ _ d₂.
            let (w, d₃) = os.write resolved (replace old_text new_text 0 current) d₂ in
            after (map_err (cannot (bytes "write") (shown root resolved)) w)
              (λ _ d₄. (ok (edited (shown root resolved)), d₄)) d₃)
          d₁)
      d

unfoldable pub edit_file : {D : Type 0} → Os D → Root → Str → Str → Str → Act D Str
edit_file os root path old_text new_text d =
    if is_empty old_text
    then (err old_text_empty, d)
    else after (map_err outside (resolve (os.fs d) root path))
        (edit_resolved os root old_text new_text) d
