-- ===== src/Utils/RoundTrip.antt =====
-- What a stored child pointer reads back as.
use quickstep.Base.{ℕ, ◌%◌, ◌^◌, ◌≡◌, refl, arith, List, ◌++◌, drop, length}
use quickstep.Base.Bits.{and_low}
use quickstep.Base.Bytes.{to_le, from_le}
use quickstep.Utils.{store_u48, extract_u48, store_u32, extract_u32}

-- A 48-bit page id, stored and read back with any bytes behind it, is its low 48 bits.
pub extract-store_u48 :
    (val : ℕ) (rest : List ℕ) → extract_u48 (store_u48 val ++ rest) ≡ val % 2 ^ 48
unfolding extract_u48 store_u48 to_le from_le
extract-store_u48 val rest = omega (arith, and_low 48 val)

pub length-store_u48 : (val : ℕ) → length (store_u48 val) ≡ 6
unfolding store_u48 to_le
length-store_u48 val = refl

pub length-store_u32 : (val : ℕ) → length (store_u32 val) ≡ 8
unfolding store_u32 to_le
length-store_u32 val = refl

-- `extract_u32` reads the four bytes in front of the number that `store_u32` wrote: it gives 0
-- whatever was stored, and gives the number (modulo 2 ^ 32) only four bytes further on.
pub extract-store_u32 :
    (val : ℕ) (rest : List ℕ)
    → (extract_u32 (store_u32 val ++ rest) ≡ 0)
      × (extract_u32 (drop 4 (store_u32 val ++ rest)) ≡ val % 2 ^ 32)
unfolding extract_u32 store_u32 to_le from_le
extract-store_u32 val rest = omega arith

-- What is stored, read back with any bytes behind it: for `store_u48` the low 48 bits. For
-- `store_u32` it is 0 whatever was stored, and the number (modulo 2 ^ 32) stands only four bytes
-- further on.
pub extract-store :
    (val : ℕ) (rest : List ℕ)
    → (extract_u48 (store_u48 val ++ rest) ≡ val % 2 ^ 48)
      × (extract_u32 (store_u32 val ++ rest) ≡ 0)
      × (extract_u32 (drop 4 (store_u32 val ++ rest)) ≡ val % 2 ^ 32)
extract-store val rest =
    let short = extract-store_u32 val rest in (extract-store_u48 val rest, short.0, short.1)
