-- ===== src/Common/Decimal.antt =====
-- `Display` of Rust's integers.
use Prim.Native.Nat.{ℕ, zero, suc, ◌+◌, ◌-◌, ◌*◌, ◌/◌, ◌%◌, ◌<◌}
use mathlib.Core.Path.{◌≡◌, ap, ◌∙◌}
use mathlib.Core.Logic.{inl, inr}
use mathlib.Core.Bool.{true, false}
use mathlib.Core.List.{[], ◌∷◌, ◌++◌}
use native.Mathlib.Omega.{arith}
use local_mcp.Common.Tests.{◌==◌, Bool-cases, ==_iff}
use local_mcp.Common.Lists.{length}
use local_mcp.Common.Int.{ℤ, pos, negsuc}
use local_mcp.Common.Str.{Str, bytes}

-- The digits of `n` in front of `out`, one for each round.
unfoldable pub digits : ℕ → ℕ → Str → Str
digits zero n out = out
digits (suc fuel) n out = elim (n / 10 == 0) [
  | true ↦ (48 + n % 10) ∷ out
  | false ↦ digits fuel (n / 10) ((48 + n % 10) ∷ out)
]

unfoldable pub decimal : ℕ → Str
decimal n = digits (suc n) n []

unfoldable pub decimal_int : ℤ → Str
decimal_int (pos n) = decimal n
decimal_int (negsuc n) = bytes "-" ++ decimal (suc n)

abbrev pub spaces : ℕ → Str
spaces zero = []
spaces (suc n) = 32 ∷ spaces n

-- `{:>width}` of an ASCII text
unfoldable pub align_right : ℕ → Str → Str
align_right width s = spaces (width - length s) ++ s

-- The number that a text of digits writes, behind those that make up `acc`.
abbrev pub value : ℕ → Str → ℕ
value acc [] = acc
value acc (b ∷ s) = value (acc * 10 + (b - 48)) s

shrinks : (n fuel : ℕ) → n < suc fuel → (n / 10 == 0) ≡ false → n / 10 < fuel
shrinks n fuel h large = ground arith

value-digits : (fuel n : ℕ) (out : Str) → n < fuel → value 0 (digits fuel n out) ≡ value n out
unfolding digits
value-digits zero n out h = absurd (omega arith)
value-digits (suc fuel) n out h = elim (Bool-cases (n / 10 == 0)) [
  | inl small ↦
      rw (small, digits) (ap (λ acc. value acc out) (omega (arith, (==_iff (n / 10) 0).0 small)))
  | inr large ↦
      rw (large, digits)
        (value-digits fuel (n / 10) ((48 + n % 10) ∷ out) (shrinks n fuel h large)
          ∙ ap (λ acc. value acc out) (omega arith))
]

-- The rounds are enough: the digits that are printed write the number.
pub value-decimal : (n : ℕ) → value 0 (decimal n) ≡ n
unfolding decimal
value-decimal n = value-digits (suc n) n [] (omega arith)
