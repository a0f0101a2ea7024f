-- ===== src/Utils.antt =====
-- src/utils.rs: the 48-bit and 32-bit child pointers of inner nodes, big-endian.
-- A pointer into a buffer is the list of the bytes from there on.
pub mod RoundTrip
mod Examples
use quickstep.Base.{ℕ, ◌+◌, ◌%◌, ◌^◌, List, [], ◌∷◌, ◌++◌, bit_and, take, drop}
use quickstep.Base.Bytes.{to_be, from_be}

unfoldable pub store_u48 : ℕ → List ℕ
unfolding to_be
store_u48 val = drop 2 (to_be 8 (bit_and val 0x0000_ffff_ffff_ffff))

unfoldable pub extract_u48 : List ℕ → ℕ
unfolding from_be
extract_u48 bytes = from_be (0 ∷ 0 ∷ take 6 bytes)

-- Eight bytes: four zeros, then the number.
unfoldable pub store_u32 : ℕ → List ℕ
unfolding to_be
store_u32 val = (0 ∷ 0 ∷ 0 ∷ 0 ∷ []) ++ to_be 4 (val % 2 ^ 32)

unfoldable pub extract_u32 : List ℕ → ℕ
unfolding from_be
extract_u32 bytes = from_be (take 4 bytes)
