-- ===== src/Base/Bits.antt =====
-- The bit operations on words as arithmetic.
use Prim.Native.Nat.{ℕ, zero, suc, ◌+◌, ◌-◌, ◌*◌, ◌/◌, ◌%◌, ◌^◌, ◌≤◌, ◌<◌, min, max}
use Prim.Native.Nat.{bit_and, bit_or, digits, bit_and-bitwise, bit_or-bitwise}
use mathlib.Core.Path.{◌≡◌, refl, ap}
use native.Mathlib.Nat.{pow-suc, one-le-pow, le_refl, div-add-mod', mod-lt}
use native.Mathlib.Omega.{arith}

-- Past the number's own size, the fuel of the digit recursion does not matter.
digits_enough :
    (z : ℕ → ℕ) (f : ℕ → ℕ → ℕ) (k l x y : ℕ) → x ≤ k → x ≤ l → digits z f k x y ≡ digits z f l x y
digits_enough z f zero zero x y p q = refl
digits_enough z f zero (suc l) zero y p q = refl
digits_enough z f (suc k) zero zero y p q = refl
digits_enough z f (suc k) (suc l) zero y p q = refl
digits_enough z f zero l (suc x) y p q = absurd (omega arith)
digits_enough z f (suc k) zero (suc x) y p q = absurd (omega arith)
digits_enough z f (suc k) (suc l) (suc x) y p q =
    ap (λ t. t * 2 + f (suc x % 2) (y % 2))
      (digits_enough z f k l (suc x / 2) (y / 2) (omega arith) (omega arith))

-- One binary digit of each operation.
pub and_digit : (x y : ℕ) → bit_and x y ≡ bit_and (x / 2) (y / 2) * 2 + min (x % 2) (y % 2)
and_digit zero y = simp bit_and-bitwise (omega arith)
and_digit (suc x) y = simp bit_and-bitwise (
    omega (
      arith,
      digits_enough (λ _. 0) min x (suc x / 2) (suc x / 2) (y / 2) (omega arith) (le_refl _),
    ))

pub or_digit : (x y : ℕ) → bit_or x y ≡ bit_or (x / 2) (y / 2) * 2 + max (x % 2) (y % 2)
or_digit zero y = simp bit_or-bitwise (omega arith)
or_digit (suc x) y = simp bit_or-bitwise (
    omega (
      arith,
      digits_enough (λ t. t) max x (suc x / 2) (suc x / 2) (y / 2) (omega arith) (le_refl _),
    ))

-- Operations on two words that are cut at the same bit go part by part.
scale_suc : (q k : ℕ) → q * 2 ^ suc k ≡ 2 * (q * 2 ^ k)
scale_suc q k = omega (arith, ap (λ (t : ℕ). q * t) (pow-suc 2 k))

pub and_parts :
    (k a r b s : ℕ)
    → r < 2 ^ k
    → s < 2 ^ k
    → bit_and (a * 2 ^ k + r) (b * 2 ^ k + s) ≡ bit_and a b * 2 ^ k + bit_and r s
and_parts zero a r b s hr hs = ground arith
and_parts (suc k) a r b s hr hs = ground (
  arith,
  and_digit (a * 2 ^ suc k + r) (b * 2 ^ suc k + s),
  and_digit r s,
  scale_suc a k,
  scale_suc b k,
  scale_suc (bit_and a b) k,
  pow-suc 2 k,
  and_parts k a (r / 2) b (s / 2) (omega (arith, pow-suc 2 k)) (omega (arith, pow-suc 2 k)),
)

pub or_parts :
    (k a r b s : ℕ)
    → r < 2 ^ k
    → s < 2 ^ k
    → bit_or (a * 2 ^ k + r) (b * 2 ^ k + s) ≡ bit_or a b * 2 ^ k + bit_or r s
or_parts zero a r b s hr hs = ground arith
or_parts (suc k) a r b s hr hs = ground (
  arith,
  or_digit (a * 2 ^ suc k + r) (b * 2 ^ suc k + s),
  or_digit r s,
  scale_suc a k,
  scale_suc b k,
  scale_suc (bit_or a b) k,
  pow-suc 2 k,
  or_parts k a (r / 2) b (s / 2) (omega (arith, pow-suc 2 k)) (omega (arith, pow-suc 2 k)),
)

-- With 0, and with a mask of low bits.
and_zero_within : (n a : ℕ) → a ≤ n → bit_and a 0 ≡ 0
and_zero_within n zero h = refl
and_zero_within zero (suc a) h = absurd (omega arith)
and_zero_within (suc n) (suc a) h =
    omega (arith, and_digit (suc a) 0, and_zero_within n (suc a / 2) (omega arith))

pub and_zero : (a : ℕ) → bit_and a 0 ≡ 0
and_zero a = and_zero_within a a (le_refl a)

or_zero_within : (n a : ℕ) → a ≤ n → bit_or a 0 ≡ a
or_zero_within n zero h = refl
or_zero_within zero (suc a) h = absurd (omega arith)
or_zero_within (suc n) (suc a) h =
    omega (arith, or_digit (suc a) 0, or_zero_within n (suc a / 2) (omega arith))

pub or_zero : (a : ℕ) → bit_or a 0 ≡ a
or_zero a = or_zero_within a a (le_refl a)

pub zero_and : (a : ℕ) → bit_and 0 a ≡ 0
zero_and a = bit_and-bitwise 0 a

pub zero_or : (a : ℕ) → bit_or 0 a ≡ a
zero_or a = bit_or-bitwise 0 a

and_full : (k r : ℕ) → r < 2 ^ k → bit_and r (2 ^ k - 1) ≡ r
and_full zero r h = omega (arith, and_zero r)
and_full (suc k) r h = ground (
  arith,
  and_digit r (2 ^ suc k - 1),
  pow-suc 2 k,
  one-le-pow k 2,
  and_full k (r / 2) (omega (arith, pow-suc 2 k)),
)

pub and_low : (k a : ℕ) → bit_and a (2 ^ k - 1) ≡ a % 2 ^ k
and_low k a =
    let pos : 0 < 2 ^ k = one-le-pow k 2 (omega arith) in
    ground (
      arith,
      and_parts k (a / 2 ^ k) (a % 2 ^ k) 0 (2 ^ k - 1),
      and_zero (a / 2 ^ k),
      and_full k (a % 2 ^ k),
      div-add-mod' a (2 ^ k),
      mod-lt a pos,
    )

-- `x & mask` where the mask keeps the `k` lowest bits and, through `m`, the bits from `K` on.
pub and_outside :
    (k K m x : ℕ)
    → 2 ^ k ≤ 2 ^ K
    → bit_and x (m * 2 ^ K + (2 ^ k - 1)) ≡ bit_and (x / 2 ^ K) m * 2 ^ K + x % 2 ^ K % 2 ^ k
and_outside k K m x le =
    let pos : 0 < 2 ^ k = one-le-pow k 2 (omega arith) in
    let pos' : 0 < 2 ^ K = one-le-pow K 2 (omega arith) in
    ground (
      arith,
      and_parts K (x / 2 ^ K) (x % 2 ^ K) m (2 ^ k - 1),
      and_low k (x % 2 ^ K),
      div-add-mod' x (2 ^ K),
      mod-lt x pos',
    )

-- `x & (((1 << w) - 1) << k)`.
pub and_field : (k w x : ℕ) → bit_and x ((2 ^ w - 1) * 2 ^ k) ≡ x / 2 ^ k % 2 ^ w * 2 ^ k
and_field k w x =
    let pos : 0 < 2 ^ k = one-le-pow k 2 (omega arith) in
    ground (
      arith,
      and_parts k (x / 2 ^ k) (x % 2 ^ k) (2 ^ w - 1) 0,
      and_zero (x % 2 ^ k),
      and_low w (x / 2 ^ k),
      div-add-mod' x (2 ^ k),
      mod-lt x pos,
    )

-- `|` of a value into a gap of `w` clear bits at bit `k`.
pub or_gap :
    (k w h v l : ℕ)
    → v < 2 ^ w
    → l < 2 ^ k
    → bit_or (h * 2 ^ w * 2 ^ k + l) (v * 2 ^ k) ≡ (h * 2 ^ w + v) * 2 ^ k + l
or_gap k w h v l hv hl =
    let pos : 0 < 2 ^ k = one-le-pow k 2 (omega arith) in
    let pos' : 0 < 2 ^ w = one-le-pow w 2 (omega arith) in
    ground
      (arith, or_parts k (h * 2 ^ w) l v 0, or_parts w h 0 0 v, or_zero l, or_zero h, zero_or v)

-- `|` of a value below the lowest set bit.
pub or_low : (k h l : ℕ) → l < 2 ^ k → bit_or (h * 2 ^ k) l ≡ h * 2 ^ k + l
or_low k h l hl =
    let pos : 0 < 2 ^ k = one-le-pow k 2 (omega arith) in
    ground (arith, or_parts k h 0 0 l, or_zero h, zero_or l)

and_comm_within : (n a b : ℕ) → a ≤ n → bit_and a b ≡ bit_and b a
and_comm_within n zero b h = omega (arith, zero_and b, and_zero b)
and_comm_within zero (suc a) b h = absurd (omega arith)
and_comm_within (suc n) (suc a) b h = omega (
  arith,
  and_digit (suc a) b,
  and_digit b (suc a),
  and_comm_within n (suc a / 2) (b / 2) (omega arith),
)

pub and_comm : (a b : ℕ) → bit_and a b ≡ bit_and b a
and_comm a b = and_comm_within a a b (le_refl a)

-- `x | (1 << k)`.
pub or_flag : (k x : ℕ) → bit_or x (2 ^ k) ≡ (x / 2 ^ k / 2 * 2 + 1) * 2 ^ k + x % 2 ^ k
or_flag k x =
    let pos : 0 < 2 ^ k = one-le-pow k 2 (omega arith) in
    ground (
      arith,
      or_parts k (x / 2 ^ k) (x % 2 ^ k) 1 0,
      or_digit (x / 2 ^ k) 1,
      or_zero (x / 2 ^ k / 2),
      or_zero (x % 2 ^ k),
      div-add-mod' x (2 ^ k),
      mod-lt x pos,
    )
