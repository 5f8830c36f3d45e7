-- ===== src/FileTools/Read/Ascii.antt =====
-- src/fs_ops.rs: `read_file` of ASCII files.
use local_mcp.Common.{
  ℕ, zero, suc, ◌+◌, ◌-◌, ◌^◌, ◌<◌, ◌≤◌, ◌/◌, ◌%◌, ◌≡◌, ◌≢◌, refl, sym, subst, Bool, true, false,
  Bool-cases, inl, inr, ◌&&◌, Option, none, some, List, [], ◌∷◌, ◌++◌, ◌==◌, ltb, length, take,
  drop, All, All-append, arith, if◌then◌else◌,
}
use local_mcp.Common.Str.{Str, lines, newline_next, on_line}
use local_mcp.Common.Decimal.{digits, decimal, spaces, align_right}
use local_mcp.Common.Utf8.{valid, chunk, from_utf8_lossy-IsUtf8, is_utf8_from, is_char_boundary}
use local_mcp.Common.Result.{ok}
use local_mcp.FilePath.{PathBuf}
use local_mcp.Root.{Root}
use local_mcp.FileTools.{Os}
use local_mcp.FileTools.Output.{returned, panicked, truncate}
use local_mcp.FileTools.Read.{unwrap_or, numbered, numbered_line, read_file}
use local_mcp.FileTools.Read.Window.{window, text_of, read_file_ok}

abbrev pub IsAscii : Str → Type 0
IsAscii = All (λ (b : ℕ). b < 0x80)

chunk-ascii : (b : ℕ) (s : Str) → b < 0x80 → chunk b s ≡ valid 0
unfolding chunk
chunk-ascii b s h = let low : ltb b 0x80 ≡ true = ground (arith, h) in rw low refl

is_utf8_from-IsAscii : (s : Str) → IsAscii s → is_utf8_from 0 s ≡ true
unfolding is_utf8_from
is_utf8_from-IsAscii [] h = refl
is_utf8_from-IsAscii (b ∷ s) (low, h) =
    rw (is_utf8_from, chunk-ascii b s low) (is_utf8_from-IsAscii s h)

on_line-IsAscii : (b : ℕ) (ls : List Str) → b < 0x80 → All IsAscii ls → All IsAscii (on_line b ls)
on_line-IsAscii b [] low h = ((low, tt), tt)
on_line-IsAscii b (l ∷ ls) low (here, h) = ((low, here), h)

lines-IsAscii : (s : Str) → IsAscii s → All IsAscii (lines s)
unfolding lines
lines-IsAscii [] h = tt
lines-IsAscii (b ∷ s) (low, h) = by_byte (b == 10) (b == 13 && newline_next s) (lines-IsAscii s h)
  where
    by_byte :
        (p q : Bool)
        → All IsAscii (lines s)
        → All IsAscii (if p then [] ∷ lines s else if q then lines s else on_line b (lines s))
    by_byte true q rest = (tt, rest)
    by_byte false true rest = rest
    by_byte false false rest = on_line-IsAscii b (lines s) low rest

digits-IsAscii : (fuel n : ℕ) (out : Str) → IsAscii out → IsAscii (digits fuel n out)
unfolding digits
digits-IsAscii zero n out h = h
digits-IsAscii (suc fuel) n out h =
    let one : 48 + n % 10 < 0x80 = omega arith in
    by_size (n / 10 == 0) one (digits-IsAscii fuel (n / 10) ((48 + n % 10) ∷ out) (one, h))
  where
    by_size :
        (p : Bool)
        → 48 + n % 10 < 0x80
        → IsAscii (digits fuel (n / 10) ((48 + n % 10) ∷ out))
        → IsAscii (elim p [
          | true ↦ (48 + n % 10) ∷ out
          | false ↦ digits fuel (n / 10) ((48 + n % 10) ∷ out)
        ])
    by_size true one rest = (one, h)
    by_size false one rest = rest

spaces-IsAscii : (n : ℕ) → IsAscii (spaces n)
spaces-IsAscii zero = tt
spaces-IsAscii (suc n) = (omega arith, spaces-IsAscii n)

numbered_line-IsAscii : (n : ℕ) (line : Str) → IsAscii line → IsAscii (numbered_line n line)
unfolding align_right decimal
numbered_line-IsAscii n line h =
    let number : IsAscii (align_right 6 (decimal n)) =
      All-append _ (spaces (6 - length (decimal n))) (decimal n) (spaces-IsAscii _)
        (digits-IsAscii (suc n) n [] tt) in
    All-append _ (align_right 6 (decimal n) ++ 9 ∷ line) (10 ∷ [])
      (All-append _ (align_right 6 (decimal n)) (9 ∷ line) number (omega arith, h))
      (omega arith, tt)

numbered-IsAscii : (n : ℕ) (ls : List Str) → All IsAscii ls → IsAscii (numbered n ls)
unfolding numbered
numbered-IsAscii n [] h = tt
numbered-IsAscii n (l ∷ ls) (here, h) =
    All-append _ (numbered_line n l) (numbered (suc n) ls) (numbered_line-IsAscii n l here)
      (numbered-IsAscii (suc n) ls h)

take-All : (P : Str → Type 0) (n : ℕ) (ls : List Str) → All P ls → All P (take n ls)
take-All P zero ls h = tt
take-All P (suc n) [] h = tt
take-All P (suc n) (l ∷ ls) (here, h) = (here, take-All P n ls h)

drop-All : (P : Str → Type 0) (n : ℕ) (ls : List Str) → All P ls → All P (drop n ls)
drop-All P zero ls h = h
drop-All P (suc n) [] h = tt
drop-All P (suc n) (l ∷ ls) (here, h) = drop-All P n ls h

window-IsAscii :
    (start : ℕ) (limit : Option ℕ) (ls : List Str)
    → All IsAscii ls
    → All IsAscii (window start limit ls)
window-IsAscii start none ls h = drop-All IsAscii start ls h
window-IsAscii start (some n) ls h =
    take-All IsAscii n (drop start ls) (drop-All IsAscii start ls h)

is_char_boundary-IsAscii :
    (s : Str) (n : ℕ) → IsAscii s → n ≤ length s → is_char_boundary s n ≡ true
unfolding is_char_boundary
is_char_boundary-IsAscii [] zero h k = refl
is_char_boundary-IsAscii (b ∷ s) zero h k = refl
is_char_boundary-IsAscii [] (suc n) h k = absurd (omega (arith, k))
is_char_boundary-IsAscii (b ∷ []) (suc n) h k = ground (arith, k)
is_char_boundary-IsAscii (b ∷ c ∷ s) (suc zero) (low, (next, h)) k = ground (arith, next)
is_char_boundary-IsAscii (b ∷ c ∷ s) (suc (suc n)) (low, h) k =
    is_char_boundary-IsAscii (c ∷ s) (suc n) h (omega (arith, k))

truncate-IsAscii :
    (text : Str) (max_output : ℕ) → IsAscii text → truncate text max_output ≢ panicked
unfolding truncate
truncate-IsAscii text max_output h e = elim (Bool-cases (ltb max_output (length text))) [
  | inr short ↦ let clash : returned text ≡ panicked = rw short at e in cc
  | inl long ↦
      let boundary = is_char_boundary-IsAscii text max_output h (ground (arith, long)) in
      let clash : returned _ ≡ panicked = rw (long, boundary) at e in cc
]

-- Where the files are ASCII, no `read_file` panics.
pub read_file-IsAscii :
    {D : Type 0} (os : Os D) (root : Root) (path : Str) (offset limit : Option ℕ) (max_output : ℕ)
    (d : D)
    → unwrap_or 0 offset < 2 ^ 32
    → unwrap_or 0 limit < 2 ^ 32
    → ((target : PathBuf) (content : Str) → os.read d target ≡ ok content → IsAscii content)
    → read_file os root path offset limit max_output d ≢ ok panicked
read_file-IsAscii os root path offset limit max_output d h k ascii answered =
    let (reading, same, _) =
      read_file_ok os root path offset limit max_output d panicked h k answered in
    let plain = ascii reading.target reading.content reading.read in
    let decoded =
      from_utf8_lossy-IsUtf8 reading.content (is_utf8_from-IsAscii reading.content plain) in
    let text : All IsAscii (text_of reading) =
      subst (λ (s : Str). All IsAscii (lines s)) (sym decoded)
        (lines-IsAscii reading.content plain) in
    truncate-IsAscii
      (numbered (unwrap_or 0 offset + 1) (window (unwrap_or 0 offset) limit (text_of reading)))
      max_output
      (numbered-IsAscii _ _ (window-IsAscii (unwrap_or 0 offset) limit (text_of reading) text))
      (sym same)
