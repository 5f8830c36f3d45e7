-- ===== src/Common/Utf8.antt =====
-- `String::from_utf8_lossy` and `str::is_char_boundary`.
use Prim.Native.Nat.{ℕ, zero, suc}
use mathlib.Core.Path.{◌≡◌, refl, ap}
use mathlib.Core.Logic.{inl, inr, ◌⊎◌}
use mathlib.Core.Bool.{Bool, true, false, ◌&&◌, ◌||◌}
use mathlib.Core.List.{[], ◌∷◌}
use local_mcp.Common.Tests.{◌==◌, ltb, leb, if◌then◌else◌}
use local_mcp.Common.Str.{Str}

abbrev pub between : ℕ → ℕ → ℕ → Bool
between low high b = leb low b && leb b high

-- A byte that continues a character.
abbrev pub is_continuation : ℕ → Bool
is_continuation = between 0x80 0xBF

-- How many bytes a character has that begins with `a`; none begins with the other bytes.
abbrev pub width : ℕ → ℕ
width a =
    if ltb a 0x80
    then 1
    else if between 0xC2 0xDF a
    then 2
    else if between 0xE0 0xEF a
    then 3
    else if between 0xF0 0xF4 a
    then 4
    else 0

-- The second byte: no overlong form, no surrogate, nothing above U+10FFFF.
abbrev pub second_fits : ℕ → ℕ → Bool
second_fits a b =
    if a == 0xE0
    then between 0xA0 0xBF b
    else if a == 0xED
    then between 0x80 0x9F b
    else if a == 0xF0
    then between 0x90 0xBF b
    else if a == 0xF4
    then between 0x80 0x8F b
    else is_continuation b

-- What stands at the head of a text: a character or the longest part of one that is broken off,
-- with the number of its bytes behind the first.
pub data Chunk : Type 0 where
  valid invalid : ℕ → Chunk

abbrev fourth : Str → Chunk
fourth [] = invalid 2
fourth (d ∷ s) = if is_continuation d then valid 3 else invalid 2

abbrev third : ℕ → Str → Chunk
third w [] = invalid 1
third w (c ∷ s) = if is_continuation c then (if w == 3 then valid 2 else fourth s) else invalid 1

abbrev second : ℕ → ℕ → Str → Chunk
second w a [] = invalid 0
second w a (b ∷ s) = if second_fits a b then (if w == 2 then valid 1 else third w s) else invalid 0

unfoldable pub chunk : ℕ → Str → Chunk
chunk a s =
    if width a == 0 then invalid 0 else if width a == 1 then valid 0 else second (width a) a s

-- How many bytes behind the first of a chunk are still to be copied, or to be left out.
pub data Mode : Type 0 where
  copy skip : ℕ → Mode

-- Every broken chunk becomes U+FFFD.
unfoldable pub lossy : Mode → Str → Str
lossy m [] = []
lossy (copy (suc n)) (b ∷ s) = b ∷ lossy (copy n) s
lossy (skip (suc n)) (b ∷ s) = lossy (skip n) s
lossy (copy zero) (b ∷ s) = elim (chunk b s) [
  | valid n ↦ b ∷ lossy (copy n) s
  | invalid n ↦ 0xEF ∷ 0xBF ∷ 0xBD ∷ lossy (skip n) s
]
lossy (skip zero) (b ∷ s) = elim (chunk b s) [
  | valid n ↦ b ∷ lossy (copy n) s
  | invalid n ↦ 0xEF ∷ 0xBF ∷ 0xBD ∷ lossy (skip n) s
]

unfoldable pub from_utf8_lossy : Str → Str
from_utf8_lossy = lossy (copy 0)

-- Valid UTF-8, behind the first byte of a character of which `n` bytes are to come.
unfoldable pub is_utf8_from : ℕ → Str → Bool
is_utf8_from zero [] = true
is_utf8_from (suc n) [] = false
is_utf8_from (suc n) (b ∷ s) = is_utf8_from n s
is_utf8_from zero (b ∷ s) = elim (chunk b s) [ valid n ↦ is_utf8_from n s | invalid n ↦ false ]

abbrev pub IsUtf8 : Str → Type 0
IsUtf8 s = is_utf8_from 0 s ≡ true

Chunk-cases : (c : Chunk) → ((n : ℕ) × (c ≡ valid n)) ⊎ ((n : ℕ) × (c ≡ invalid n))
Chunk-cases (valid n) = inl (n, refl)
Chunk-cases (invalid n) = inr (n, refl)

lossy-valid : (n : ℕ) (s : Str) → is_utf8_from n s ≡ true → lossy (copy n) s ≡ s
unfolding lossy is_utf8_from
lossy-valid zero [] h = refl
lossy-valid (suc n) [] h = refl
lossy-valid (suc n) (b ∷ s) h = ap (λ (t : Str). b ∷ t) (lossy-valid n s h)
lossy-valid zero (b ∷ s) h = elim (Chunk-cases (chunk b s)) [
  | inl (n, e) ↦
      rw (e, lossy) (ap (λ (t : Str). b ∷ t) (lossy-valid n s (rw (e, is_utf8_from) at h)))
  | inr (n, e) ↦ let clash : false ≡ true = rw (e, is_utf8_from) at h in cc
]

-- Text that is valid UTF-8 comes back as it is.
pub from_utf8_lossy-IsUtf8 : (s : Str) → IsUtf8 s → from_utf8_lossy s ≡ s
unfolding from_utf8_lossy
from_utf8_lossy-IsUtf8 = lossy-valid 0

-- Byte `n` begins a character, or stands at the end of the text.
unfoldable pub is_char_boundary : Str → ℕ → Bool
is_char_boundary s zero = true
is_char_boundary [] (suc n) = false
is_char_boundary (b ∷ []) (suc n) = n == 0
is_char_boundary (b ∷ c ∷ s) (suc zero) = ltb c 0x80 || leb 0xC0 c
is_char_boundary (b ∷ c ∷ s) (suc (suc n)) = is_char_boundary (c ∷ s) (suc n)

replaces :
    from_utf8_lossy (0x61 ∷ 0xE2 ∷ 0x82 ∷ 0x62 ∷ 0xFF ∷ 0xC3 ∷ 0xA9 ∷ [])
    ≡ 0x61 ∷ 0xEF ∷ 0xBF ∷ 0xBD ∷ 0x62 ∷ 0xEF ∷ 0xBF ∷ 0xBD ∷ 0xC3 ∷ 0xA9 ∷ []
unfolding from_utf8_lossy lossy chunk
replaces = refl
