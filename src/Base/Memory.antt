-- ===== src/Base/Memory.antt =====
-- Bytes in memory, as a function from addresses.
use Prim.Native.Nat.{ℕ, zero, suc, ◌+◌, ◌-◌, ◌≤◌, ◌<◌}
use mathlib.Core.Path.{◌≡◌, refl, ap, ap₂, ◌∙◌}
use mathlib.Core.Logic.{◌⊎◌}
use mathlib.Core.Bool.{◌&&◌}
use mathlib.Core.List.{List, [], ◌∷◌}
use native.Mathlib.Omega.{arith}
use quickstep.Base.Tests.{ltb, leb, if◌then◌else◌}
use quickstep.Base.Lists.{length, get_or}

abbrev pub Memory : Type 0
Memory = ℕ → ℕ

unfoldable pub read_bytes : Memory → ℕ → ℕ → List ℕ
read_bytes cells zero from = []
read_bytes cells (suc len) from = cells from ∷ read_bytes cells len (from + 1)

-- The bytes are stored from the address `from` on.
unfoldable pub write_bytes : Memory → ℕ → List ℕ → Memory
write_bytes cells from bytes i =
    if leb from i && ltb i (from + length bytes) then get_or bytes (i - from) 0 else cells i

-- `ptr::copy` of `len` bytes, where the ranges may overlap.
unfoldable pub move_bytes : Memory → ℕ → ℕ → ℕ → Memory
move_bytes cells from to len i =
    if leb to i && ltb i (to + len) then cells (i - to + from) else cells i

pub length-read_bytes : (cells : Memory) (len from : ℕ) → length (read_bytes cells len from) ≡ len
unfolding read_bytes
length-read_bytes cells zero from = refl
length-read_bytes cells (suc len) from = omega (arith, length-read_bytes cells len (from + 1))

-- Two memories that agree on a range, at a distance.
pub read_bytes_of_same :
    (a b : Memory) (len i j : ℕ)
    → ((k : ℕ) → k < len → a (i + k) ≡ b (j + k))
    → read_bytes a len i ≡ read_bytes b len j
unfolding read_bytes
read_bytes_of_same a b zero i j h = refl
read_bytes_of_same a b (suc len) i j h =
    ap₂ (λ x xs. x ∷ xs) (ap a (omega arith) ∙ h 0 (omega arith) ∙ ap b (omega arith))
      (read_bytes_of_same a b len (i + 1) (j + 1)
        λ k lt. ap a (omega arith) ∙ h (k + 1) (omega arith) ∙ ap b (omega arith))

pub read_bytes_of_list :
    (a : Memory) (bytes : List ℕ) (i : ℕ)
    → ((k : ℕ) → k < length bytes → a (i + k) ≡ get_or bytes k 0)
    → read_bytes a (length bytes) i ≡ bytes
unfolding read_bytes
read_bytes_of_list a [] i h = refl
read_bytes_of_list a (b ∷ bs) i h =
    ap₂ (λ x xs. x ∷ xs) (ap a (omega arith) ∙ h 0 (omega arith))
      (read_bytes_of_list a bs (i + 1) λ k lt. ap a (omega arith) ∙ h (suc k) (omega arith))

-- What was written is read.
pub read_bytes-write_bytes :
    (cells : Memory) (from : ℕ) (bytes : List ℕ)
    → read_bytes (write_bytes cells from bytes) (length bytes) from ≡ bytes
unfolding write_bytes
read_bytes-write_bytes cells from bytes =
    read_bytes_of_list (write_bytes cells from bytes) bytes from λ k lt.
      let at_k : from + k - from ≡ k = omega arith in
      ground (arith, ap (λ x. get_or bytes x 0) at_k)

-- Ranges that do not meet.
abbrev pub IsApart : ℕ → ℕ → ℕ → ℕ → Type 0
IsApart from len from' len' = (from + len ≤ from') ⊎ (from' + len' ≤ from)

-- A write leaves what it does not meet.
pub read_bytes-write_bytes_apart :
    (cells : Memory) (from : ℕ) (bytes : List ℕ) (len i : ℕ)
    → IsApart i len from (length bytes)
    → read_bytes (write_bytes cells from bytes) len i ≡ read_bytes cells len i
unfolding write_bytes
read_bytes-write_bytes_apart cells from bytes len i apart =
    read_bytes_of_same (write_bytes cells from bytes) cells len i i λ k lt. ground arith

pub read_bytes-move_bytes :
    (cells : Memory) (from to len n i : ℕ)
    → to ≤ i
    → i + n ≤ to + len
    → read_bytes (move_bytes cells from to len) n i ≡ read_bytes cells n (i - to + from)
unfolding move_bytes
read_bytes-move_bytes cells from to len n i low high =
    read_bytes_of_same (move_bytes cells from to len) cells n i (i - to + from) λ k lt.
      let there : i + k - to + from ≡ i - to + from + k = omega arith in
      ground (arith, ap cells there)

pub read_bytes-move_bytes_apart :
    (cells : Memory) (from to len n i : ℕ)
    → IsApart i n to len
    → read_bytes (move_bytes cells from to len) n i ≡ read_bytes cells n i
unfolding move_bytes
read_bytes-move_bytes_apart cells from to len n i apart =
    read_bytes_of_same (move_bytes cells from to len) cells n i i λ k lt. ground arith
