-- ===== src/Store/Clock/Laws.antt =====
-- `to_epoch` and `from_epoch` of src/store.rs, one after the other.
use local_mcp.Common.{ℕ, ◌*◌, ◌/◌, ◌%◌, ◌^◌, ◌-◌, ◌<◌, ◌≤◌, ◌≡◌, ap, ◌∙◌, arith, true, leb, le→leb}
use local_mcp.Common.Int.{pos, leℤ, as_i64}
use local_mcp.Store.Clock.{second, to_epoch, from_epoch, IsInRange}

as_i64_small : (n : ℕ) → n < 2 ^ 63 → as_i64 n ≡ pos n
as_i64_small n h = ground arith

divides : (s : ℕ) → s * second / second ≡ s
divides s = omega arith

-- Seconds since the epoch that fit an `i64` come back as they went.
pub to_epoch-from_epoch : (s : ℕ) → s < 2 ^ 63 → to_epoch (from_epoch (pos s)) ≡ pos s
unfolding to_epoch from_epoch
to_epoch-from_epoch s h = ap as_i64 (divides s) ∙ as_i64_small s h

-- A time from 1970 on whose seconds fit an `i64` comes back at the start of its second.
pub from_epoch-to_epoch :
    (n : ℕ) → IsInRange (pos n) → from_epoch (to_epoch (pos n)) ≡ pos (n - n % second)
unfolding to_epoch from_epoch
from_epoch-to_epoch n h = rw (as_i64_small (n / second) (omega arith)) (ap pos (omega arith))

ordered : (m n : ℕ) → m ≤ n → leb (m / second) (n / second) ≡ true
ordered m n le = le→leb _ _ (omega arith)

-- The order of times goes over to their seconds.
pub to_epoch_mono :
    (m n : ℕ) → IsInRange (pos n) → m ≤ n → leℤ (to_epoch (pos m)) (to_epoch (pos n)) ≡ true
unfolding to_epoch
to_epoch_mono m n h le =
    rw (as_i64_small (m / second) (omega arith), as_i64_small (n / second) (omega arith))
      (ordered m n le)
