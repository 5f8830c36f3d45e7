-- ===== src/Common/Int.antt =====
-- Signed integers: `negsuc n` is -(n + 1).
use Prim.Native.Nat.{ℕ, ◌+◌, ◌-◌, ◌^◌}
use mathlib.Core.Bool.{Bool, true, false}
use local_mcp.Common.Tests.{ltb, leb, if◌then◌else◌}

pub data ℤ : Type 0 where
  pos : ℕ → ℤ
  negsuc : ℕ → ℤ

abbrev pub pos_part : ℤ → ℕ
pos_part (pos n) = n
pos_part (negsuc n) = 0

abbrev pub leℤ : ℤ → ℤ → Bool
leℤ (pos m) (pos n) = leb m n
leℤ (pos m) (negsuc n) = false
leℤ (negsuc m) (pos n) = true
leℤ (negsuc m) (negsuc n) = leb n m

abbrev pub ltℤ : ℤ → ℤ → Bool
ltℤ (pos m) (pos n) = ltb m n
ltℤ (pos m) (negsuc n) = false
ltℤ (negsuc m) (pos n) = true
ltℤ (negsuc m) (negsuc n) = ltb n m

-- z + n
abbrev pub add_ℕ : ℤ → ℕ → ℤ
add_ℕ (pos m) n = pos (m + n)
add_ℕ (negsuc m) n = if ltb m n then pos (n - m - 1) else negsuc (m - n)

-- z - n
abbrev pub sub_ℕ : ℤ → ℕ → ℤ
sub_ℕ (pos m) n = if leb n m then pos (m - n) else negsuc (n - m - 1)
sub_ℕ (negsuc m) n = negsuc (m + n)

-- `n as i64` of a `u64`
abbrev pub as_i64 : ℕ → ℤ
as_i64 n = if ltb n (2 ^ 63) then pos n else negsuc (2 ^ 64 - n - 1)
