-- ===== src/FileTools/Read.antt =====
-- src/fs_ops.rs: `read_file`.
pub mod Window
pub mod Tiles
pub mod Ascii
mod Examples
use local_mcp.Common.{
  ℕ, zero, suc, ◌+◌, ◌-◌, ◌^◌, min, Bool, not, ◌&&◌, Option, none, some, List, [], ◌∷◌, ◌++◌, ◌==◌,
  leb, any, length, take, drop, if◌then◌else◌,
}
use local_mcp.Common.Str.{Str, bytes, lines}
use local_mcp.Common.Decimal.{decimal, align_right}
use local_mcp.Common.Utf8.{from_utf8_lossy}
use local_mcp.Common.Result.{Result, ok, err, map_err, ◌>>=◌}
use local_mcp.Root.{Root, resolve}
use local_mcp.FileTools.{Os, ToolError, outside, binary, offset_past_end, cannot, shown}
use local_mcp.FileTools.Output.{Call, returned, panicked, then_call, truncate}

abbrev pub binary_sniff : ℕ
binary_sniff = 8192

unfoldable pub looks_binary : Str → Bool
looks_binary content = any (λ b. b == 0) (take binary_sniff content)

abbrev pub usize_max : ℕ
usize_max = 2 ^ 64 - 1

abbrev pub unwrap_or {ℓ} : {A : Type ℓ} → A → Option A → A
unwrap_or a none = a
unwrap_or a (some b) = b

-- `start.saturating_add(limit).min(lines.len())`
abbrev pub end_of : ℕ → Option ℕ → ℕ → ℕ
end_of start none count = count
end_of start (some limit) count = min (min (start + limit) usize_max) count

-- `lines[from..to]`, which panics out of range
unfoldable pub slice {ℓ} : {A : Type ℓ} → ℕ → ℕ → List A → Call (List A)
slice from to xs =
    if leb from to && leb to (length xs)
    then returned (take (to - from) (drop from xs))
    else panicked

-- `"{:>6}\t{line}"` and a line feed
abbrev pub numbered_line : ℕ → Str → Str
numbered_line n line = align_right 6 (decimal n) ++ 9 ∷ line ++ 10 ∷ []

unfoldable pub numbered : ℕ → List Str → Str
numbered n [] = []
numbered n (line ∷ rest) = numbered_line n line ++ numbered (suc n) rest

-- `read_file` behind the split into lines
unfoldable pub read_window : Str → Option ℕ → Option ℕ → ℕ → List Str → Result ToolError (Call Str)
read_window shown offset limit max_output text =
    let start = unwrap_or 0 offset in
    if leb (length text) start && not (length text == 0)
    then err (offset_past_end start shown (length text))
    else ok (
        then_call (slice (min start (length text)) (end_of start limit (length text)) text)
          (λ window. truncate (numbered (start + 1) window) max_output))

unfoldable pub read_content : Str → Option ℕ → Option ℕ → ℕ → Str → Result ToolError (Call Str)
read_content shown offset limit max_output content =
    if looks_binary content
    then err (binary shown (length content))
    else read_window shown offset limit max_output (lines (from_utf8_lossy content))

unfoldable pub read_file :
    {D : Type 0} → Os D → Root → Str → Option ℕ → Option ℕ → ℕ → D → Result ToolError (Call Str)
read_file os root path offset limit max_output d = do
  resolved ← map_err outside (resolve (os.fs d) root path)
  content ← map_err (cannot (bytes "read") (shown root resolved)) (os.read d resolved)
  read_content (shown root resolved) offset limit max_output content
