-- ===== src/Common/Str.antt =====
-- A Rust `str` is its UTF-8 bytes: `len` is the number of bytes, `as_bytes` does nothing. The
-- methods of `str` that the program calls, with the laws that the components use.
use Prim.Native.Nat.{ℕ}
use Prim.Native.Char.{code}
use Prim.Native.String.{String}
use mathlib.Core.Path.{◌≡◌, refl}
use mathlib.Core.Logic.{◌↔◌}
use mathlib.Core.Bool.{Bool, true, false, ◌&&◌, ◌||◌}
use mathlib.Core.Option.{Option, none, some}
use mathlib.Core.List.{List, [], ◌∷◌, ◌++◌, reverse}
use native.Mathlib.Omega.{arith}
use local_mcp.Common.Tests.{leb, ◌==◌, if◌then◌else◌}
use local_mcp.Common.Lists.{any}

abbrev pub Str : Type 0
Str = List ℕ

-- The bytes of an ASCII literal.
abbrev pub bytes : String → Str
bytes String.[] = []
bytes (String.◌∷◌ c s) = code c ∷ bytes s

unfoldable pub str_eq : Str → Str → Bool
str_eq [] [] = true
str_eq [] (b ∷ t) = false
str_eq (a ∷ s) [] = false
str_eq (a ∷ s) (b ∷ t) = a == b && str_eq s t

pub str_eq_iff : (s t : Str) → (str_eq s t ≡ true) ↔ (s ≡ t)
unfolding str_eq
str_eq_iff [] [] = ground arith
str_eq_iff [] (b ∷ t) = ground arith
str_eq_iff (a ∷ s) [] = ground arith
str_eq_iff (a ∷ s) (b ∷ t) = ground (arith, str_eq_iff s t)

pub str_eq_refl : (s : Str) → str_eq s s ≡ true
str_eq_refl s = (str_eq_iff s s).1 refl

abbrev pub is_empty : Str → Bool
is_empty [] = true
is_empty (b ∷ s) = false

-- `s.contains(c)` for an ASCII character `c`.
unfoldable pub contains_byte : ℕ → Str → Bool
contains_byte c = any (λ b. b == c)

-- `s.strip_prefix(p)`
unfoldable pub strip_prefix : Str → Str → Option Str
strip_prefix [] s = some s
strip_prefix (a ∷ p) [] = none
strip_prefix (a ∷ p) (b ∷ s) = let rest = strip_prefix p s in if a == b then rest else none

pub strip_prefix-append : (p s : Str) → strip_prefix p (p ++ s) ≡ some s
unfolding strip_prefix
strip_prefix-append [] s = refl
strip_prefix-append (a ∷ p) s = ground (arith, strip_prefix-append p s)

pub strip_prefix-eq-some : (p s t : Str) → strip_prefix p s ≡ some t → s ≡ p ++ t
unfolding strip_prefix
strip_prefix-eq-some [] s t h = ground arith
strip_prefix-eq-some (a ∷ p) [] t h = cc
strip_prefix-eq-some (a ∷ p) (b ∷ s) t h = ground (arith, strip_prefix-eq-some p s t)

-- ASCII white space of `char::is_whitespace`: tab to carriage return, and space.
abbrev pub ascii_white : ℕ → Bool
ascii_white b = leb 9 b && leb b 13 || b == 32

-- The two-byte characters: U+0085 and U+00A0.
abbrev pub white2 : ℕ → ℕ → Bool
white2 a b = a == 0xC2 && (b == 0x85 || b == 0xA0)

-- The three-byte ones: U+1680, U+2000 to U+200A, U+2028, U+2029, U+202F, U+205F and U+3000.
abbrev pub white3 : ℕ → ℕ → ℕ → Bool
white3 a b c =
    a == 0xE1 && b == 0x9A && c == 0x80
    || a == 0xE2 && b == 0x80 && (leb 0x80 c && leb c 0x8A || c == 0xA8 || c == 0xA9 || c == 0xAF)
    || a == 0xE2 && b == 0x81 && c == 0x9F
    || a == 0xE3 && b == 0x80 && c == 0x80

-- `trim_start`: white space is dropped a character at a time.
unfoldable pub trim_start : Str → Str
trim_start [] = []
trim_start (a ∷ []) = if ascii_white a then [] else a ∷ []
trim_start (a ∷ b ∷ []) =
    let one = trim_start (b ∷ []) in
    if ascii_white a then one else if white2 a b then [] else a ∷ b ∷ []
trim_start (a ∷ b ∷ c ∷ s) =
    let one = trim_start (b ∷ c ∷ s) in
    let two = trim_start (c ∷ s) in
    let three = trim_start s in
    if ascii_white a
    then one
    else if white2 a b
    then two
    else if white3 a b c
    then three
    else a ∷ b ∷ c ∷ s

-- The same from the end, on the reversed bytes: a character's last byte comes first.
unfoldable pub trim_reversed : Str → Str
trim_reversed [] = []
trim_reversed (a ∷ []) = if ascii_white a then [] else a ∷ []
trim_reversed (b ∷ a ∷ []) =
    let one = trim_reversed (a ∷ []) in
    if ascii_white b then one else if white2 a b then [] else b ∷ a ∷ []
trim_reversed (c ∷ b ∷ a ∷ s) =
    let one = trim_reversed (b ∷ a ∷ s) in
    let two = trim_reversed (a ∷ s) in
    let three = trim_reversed s in
    if ascii_white c
    then one
    else if white2 b c
    then two
    else if white3 a b c
    then three
    else c ∷ b ∷ a ∷ s

abbrev pub trim_end : Str → Str
trim_end s = reverse (trim_reversed (reverse s))

-- `s.trim()`
unfoldable pub trim : Str → Str
trim s = trim_end (trim_start s)

abbrev pub newline_next : Str → Bool
newline_next [] = false
newline_next (b ∷ s) = b == 10

-- The byte is put on the first line, or begins one at the end of the text.
abbrev pub on_line : ℕ → List Str → List Str
on_line b [] = (b ∷ []) ∷ []
on_line b (l ∷ ls) = (b ∷ l) ∷ ls

-- `s.lines()`: a line ends with a line feed, with or without a carriage return before it, and
-- the last one also with the text.
unfoldable pub lines : Str → List Str
lines [] = []
lines (b ∷ s) =
    let rest = lines s in
    if b == 10 then [] ∷ rest else if b == 13 && newline_next s then rest else on_line b rest

splits_lines : lines (bytes "a\r\n\r\r\n\nb\r") ≡ bytes "a" ∷ bytes "\r" ∷ [] ∷ bytes "b\r" ∷ []
unfolding lines
splits_lines = refl

trims_both_ends : trim (bytes " \t ab c \n") ≡ bytes "ab c"
unfolding trim trim_start trim_reversed
trims_both_ends = refl
