-- ===== src/Store/Clock.antt =====
-- The clock of src/store.rs. A `SystemTime` is the signed number of nanoseconds since the epoch.
pub mod Laws
use local_mcp.Common.{
  ℕ, ◌*◌, ◌/◌, ◌^◌, ◌-◌, ◌<◌, Option, none, some, Bool, true, false, ◌≡◌, refl, arith,
  if◌then◌else◌,
}
use local_mcp.Common.Int.{ℤ, pos, negsuc, pos_part, leℤ, sub_ℕ, as_i64}

abbrev pub SystemTime : Type 0
SystemTime = ℤ

-- Nanoseconds.
abbrev pub Duration : Type 0
Duration = ℕ

abbrev pub second : ℕ
second = 1_000_000_000

-- `Duration::from_secs`
abbrev pub from_secs : ℕ → Duration
from_secs n = n * second

unfoldable pub to_epoch : SystemTime → ℤ
to_epoch (pos n) = as_i64 (n / second)
to_epoch (negsuc n) = pos 0

unfoldable pub from_epoch : ℤ → SystemTime
from_epoch seconds = pos (pos_part seconds * second)

-- The seconds of a `SystemTime` are an `i64`: `checked_sub` answers `None` below their range.
unfoldable pub checked_sub : SystemTime → Duration → Option SystemTime
checked_sub t d = let r = sub_ℕ t d in if leℤ (negsuc (2 ^ 63 * second - 1)) r then some r else none

abbrev pub unwrap_or_epoch : Option SystemTime → SystemTime
unwrap_or_epoch none = pos 0
unwrap_or_epoch (some t) = t

-- The time that the seconds of `t` can be read as.
abbrev pub IsInRange : SystemTime → Type 0
IsInRange (pos n) = n < 2 ^ 63 * second
IsInRange (negsuc n) = Unit {0}
