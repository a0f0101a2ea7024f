-- ===== src/Base/Bytes.antt =====
-- Byte strings as lists of numbers: `to_le_bytes`, `to_be_bytes` and their inverses at any width.
use Prim.Native.Nat.{ℕ, zero, suc, ◌+◌, ◌*◌, ◌/◌, ◌%◌, ◌^◌, ◌<◌}
use mathlib.Core.Path.{◌≡◌, refl, ap, ◌∙◌}
use mathlib.Core.List.{List, [], ◌∷◌, ◌++◌, reverse}
use native.Mathlib.Nat.{pow-suc}
use native.Mathlib.Omega.{arith}
use quickstep.Base.Lists.{length, take, drop, take-append, drop-append, All}

abbrev pub IsByte : ℕ → Type 0
IsByte b = b < 256

-- `n.to_le_bytes()` for an integer of `w` bytes.
unfoldable pub to_le : ℕ → ℕ → List ℕ
to_le zero n = []
to_le (suc w) n = n % 256 ∷ to_le w (n / 256)

-- `uN::from_le_bytes`.
unfoldable pub from_le : List ℕ → ℕ
from_le [] = 0
from_le (b ∷ bs) = b + 256 * from_le bs

pub length-to_le : (w n : ℕ) → length (to_le w n) ≡ w
unfolding to_le
length-to_le zero n = refl
length-to_le (suc w) n = ap suc (length-to_le w (n / 256))

pub to_le-IsByte : (w n : ℕ) → All IsByte (to_le w n)
unfolding to_le
to_le-IsByte zero n = tt
to_le-IsByte (suc w) n = (omega arith, to_le-IsByte w (n / 256))

pub from_le-to_le : (w n : ℕ) → n < 256 ^ w → from_le (to_le w n) ≡ n
unfolding to_le from_le
from_le-to_le zero n h = omega arith
from_le-to_le (suc w) n h = omega (arith, from_le-to_le w (n / 256) (omega (arith, pow-suc 256 w)))

-- Reading a field that was just written, with bytes behind it.
pub from_le-take :
    (w n : ℕ) (rest : List ℕ) → n < 256 ^ w → from_le (take w (to_le w n ++ rest)) ≡ n
from_le-take w n rest h =
    ap from_le (take-append w (to_le w n) rest (length-to_le w n)) ∙ from_le-to_le w n h

pub drop-to_le : (w n : ℕ) (rest : List ℕ) → drop w (to_le w n ++ rest) ≡ rest
drop-to_le w n rest = drop-append w (to_le w n) rest (length-to_le w n)

-- `n.to_be_bytes()` and `uN::from_be_bytes`.
unfoldable pub to_be : ℕ → ℕ → List ℕ
unfolding to_le
to_be w n = reverse (to_le w n)

unfoldable pub from_be : List ℕ → ℕ
unfolding from_le
from_be bs = from_le (reverse bs)
