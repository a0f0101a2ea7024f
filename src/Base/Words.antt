-- ===== src/Base/Words.antt =====
-- 64-bit words: shifts, complement, saturating sums.
use Prim.Native.Nat.{ℕ, ◌+◌, ◌-◌, ◌*◌, ◌/◌, ◌%◌, ◌^◌, ◌<◌, min}
use mathlib.Core.Bool.{Bool, true, false}

abbrev pub u64_max : ℕ
u64_max = 2 ^ 64 - 1

abbrev pub IsU64 : ℕ → Type 0
IsU64 x = x < 2 ^ 64

-- `x << k` and `x >> k` on u64.
abbrev pub shl : ℕ → ℕ → ℕ
shl x k = x * 2 ^ k % 2 ^ 64

abbrev pub shr : ℕ → ℕ → ℕ
shr x k = x / 2 ^ k

-- `!x` on u64.
abbrev pub bit_not : ℕ → ℕ
bit_not x = u64_max - x

abbrev pub saturating_add : ℕ → ℕ → ℕ
saturating_add a b = min (a + b) u64_max

-- `b as u64`
abbrev pub from_bool : Bool → ℕ
from_bool true = 1
from_bool false = 0
