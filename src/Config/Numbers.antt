-- ===== src/Config/Numbers.antt =====
-- src/config.rs: the settings that are numbers.
use local_mcp.Common.{
  ℕ, ◌^◌, ◌<◌, ◌≤◌, ◌≡◌, refl, ap, ◌∙◌, Bool, true, false, ◌==◌, Bool-cases, inl, inr, none, some,
  [], ◌∷◌, All, ltb, arith, if◌then◌else◌,
}
use local_mcp.Common.Str.{Str}
use local_mcp.Common.Decimal.{value}
use local_mcp.Common.Result.{ok, err, ok_or}
use local_mcp.Config.{ConfigError, parse_u64, number_or, is_digit, next_digit, parse_digits}

pub value_ge : (acc : ℕ) (s : Str) → acc ≤ value acc s
value_ge acc [] = omega arith
value_ge acc (b ∷ s) = omega (arith, value_ge (next_digit acc b) s)

-- An overflow on the way is not made good again by the digits that follow.
parse_digits-value :
    (acc : ℕ) (s : Str)
    → acc < 2 ^ 64
    → All (λ b. is_digit b ≡ true) s
    → parse_digits acc s ≡ (if ltb (value acc s) (2 ^ 64) then some (value acc s) else none)
unfolding parse_digits
parse_digits-value acc [] h digits = ground arith
parse_digits-value acc (b ∷ s) h (digit, digits) =
    elim (Bool-cases (ltb (next_digit acc b) (2 ^ 64))) [
      | inl fits ↦ rw (digit, fits) (parse_digits-value (next_digit acc b) s (ground arith) digits)
      | inr large ↦ rw (digit, large) (ground (arith, value_ge (next_digit acc b) s))
    ]

number_or-digits :
    (default : ℕ) (e : ConfigError) (s : Str)
    → parse_u64 s ≡ parse_digits 0 s
    → All (λ b. is_digit b ≡ true) s
    → number_or default e (some s) ≡ (if ltb (value 0 s) (2 ^ 64) then ok (value 0 s) else err e)
unfolding number_or
number_or-digits default e s plain digits =
    ap (ok_or e) (plain ∙ parse_digits-value 0 s (omega arith) digits)
    ∙ by_test (ltb (value 0 s) (2 ^ 64))
  where
    by_test :
        (b : Bool)
        → ok_or e (if b then some (value 0 s) else none) ≡ (if b then ok (value 0 s) else err e)
    by_test true = refl
    by_test false = refl

not_plus : (b : ℕ) → is_digit b ≡ true → (b == b'+') ≡ false
not_plus b digit = ground arith

-- A setting that is written in digits is the number that they write, if that fits 64 bits, and else
-- the program refuses to start with the setting's error.
pub number_or-value :
    (default : ℕ) (e : ConfigError) (b : ℕ) (s : Str)
    → All (λ d. is_digit d ≡ true) (b ∷ s)
    → number_or default e (some (b ∷ s))
      ≡ (if ltb (value 0 (b ∷ s)) (2 ^ 64) then ok (value 0 (b ∷ s)) else err e)
unfolding parse_u64
number_or-value default e b [] digits = number_or-digits default e (b ∷ []) refl digits
number_or-value default e b (c ∷ s) (digit, digits) =
    number_or-digits default e (b ∷ c ∷ s) (rw (not_plus b digit) refl) (digit, digits)
