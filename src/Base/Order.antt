-- ===== src/Base/Order.antt =====
-- Byte strings in the order of Rust's slices, which is the lexicographic one.
use Prim.Native.Nat.{ℕ, compare, Ordering}
use mathlib.Core.Path.{◌≡◌, refl}
use mathlib.Core.List.{List, [], ◌∷◌}
use native.Mathlib.Omega.{arith}
use Ordering.{lt, eq, gt}

unfoldable pub compare_bytes : List ℕ → List ℕ → Ordering
compare_bytes [] [] = eq
compare_bytes [] (b ∷ bs) = lt
compare_bytes (a ∷ as') [] = gt
compare_bytes (a ∷ as') (b ∷ bs) = elim (compare a b) [
  | lt ↦ lt
  | eq ↦ compare_bytes as' bs
  | gt ↦ gt
]

pub compare_bytes-eq : (a b : List ℕ) → compare_bytes a b ≡ eq → a ≡ b
unfolding compare_bytes
compare_bytes-eq [] [] h = refl
compare_bytes-eq [] (y ∷ ys) h = ground arith
compare_bytes-eq (x ∷ xs) [] h = ground arith
compare_bytes-eq (x ∷ xs) (y ∷ ys) h = ground (arith, compare_bytes-eq xs ys)

pub compare_bytes_refl : (a : List ℕ) → compare_bytes a a ≡ eq
unfolding compare_bytes
compare_bytes_refl [] = refl
compare_bytes_refl (x ∷ xs) = ground (arith, compare_bytes_refl xs)

pub compare_bytes_flip : (a b : List ℕ) → compare_bytes a b ≡ gt → compare_bytes b a ≡ lt
unfolding compare_bytes
compare_bytes_flip [] [] h = ground arith
compare_bytes_flip [] (y ∷ ys) h = ground arith
compare_bytes_flip (x ∷ xs) [] h = refl
compare_bytes_flip (x ∷ xs) (y ∷ ys) h = ground (arith, compare_bytes_flip xs ys)

pub compare_bytes_flip_lt : (a b : List ℕ) → compare_bytes a b ≡ lt → compare_bytes b a ≡ gt
unfolding compare_bytes
compare_bytes_flip_lt [] [] h = ground arith
compare_bytes_flip_lt [] (y ∷ ys) h = refl
compare_bytes_flip_lt (x ∷ xs) [] h = ground arith
compare_bytes_flip_lt (x ∷ xs) (y ∷ ys) h = ground (arith, compare_bytes_flip_lt xs ys)

pub compare_bytes_trans :
    (a b c : List ℕ) → compare_bytes a b ≡ gt → compare_bytes b c ≡ gt → compare_bytes a c ≡ gt
unfolding compare_bytes
compare_bytes_trans [] [] c h k = ground arith
compare_bytes_trans [] (y ∷ ys) c h k = ground arith
compare_bytes_trans (x ∷ xs) [] [] h k = refl
compare_bytes_trans (x ∷ xs) [] (z ∷ zs) h k = ground arith
compare_bytes_trans (x ∷ xs) (y ∷ ys) [] h k = refl
compare_bytes_trans (x ∷ xs) (y ∷ ys) (z ∷ zs) h k = ground (arith, compare_bytes_trans xs ys zs)
