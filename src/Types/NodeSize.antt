-- ===== src/Types/NodeSize.antt =====
-- `NodeSize`: the seven sizes of a mini-page, and the full leaf page.
use quickstep.Base.{ℕ, zero, suc, ◌*◌, ◌/◌, ◌^◌, ◌==◌, leb, if◌then◌else◌}
use quickstep.Base.{true, false, Option, none, some, ◌≡◌, ◌≢◌, arith}

pub data NodeSize : Type 0 where
  n64 n128 n256 n512 n1k n2k leaf_page : NodeSize

unfoldable pub index : NodeSize → ℕ
index n64 = 0
index n128 = 1
index n256 = 2
index n512 = 3
index n1k = 4
index n2k = 5
index leaf_page = 6

-- `transmute` of three bits. 7 is no value of the enumeration: undefined behaviour, `none`.
unfoldable pub from_index : ℕ → Option NodeSize
from_index i =
    if i == 0
    then some n64
    else if i == 1
    then some n128
    else if i == 2
    then some n256
    else if i == 3
    then some n512
    else if i == 4
    then some n1k
    else if i == 5
    then some n2k
    else if i == 6
    then some leaf_page
    else none

unfoldable pub size_in_words : NodeSize → ℕ
unfolding index
size_in_words s = 2 ^ index s * 8

unfoldable pub size_in_bytes : NodeSize → ℕ
unfolding size_in_words
size_in_bytes s = size_in_words s * 8

-- `usize::next_power_of_two`: the least power of two that is not below `n`, from `p` on.
next_power_from : ℕ → ℕ → ℕ → ℕ
next_power_from zero p n = p
next_power_from (suc fuel) p n = elim (leb n p) [
  | true ↦ p
  | false ↦ next_power_from fuel (p * 2) n
]

unfoldable pub from_byte_num : ℕ → Option NodeSize
unfolding next_power_from from_index
from_byte_num bytes = from_index (next_power_from 64 1 bytes / 64)

pub from_index-index : (s : NodeSize) → from_index (index s) ≡ some s
unfolding from_index index
from_index-index s = ground arith

-- No size is found again from its own number of bytes: the quotient by 64 is a power of two,
-- and `from_byte_num` reads it as the exponent.
pub from_byte_num-size_in_bytes_ne : (s : NodeSize) → from_byte_num (size_in_bytes s) ≢ some s
unfolding from_byte_num size_in_bytes
from_byte_num-size_in_bytes_ne n64 e = cc
from_byte_num-size_in_bytes_ne n128 e = cc
from_byte_num-size_in_bytes_ne n256 e = cc
from_byte_num-size_in_bytes_ne n512 e = cc
from_byte_num-size_in_bytes_ne n1k e = cc
from_byte_num-size_in_bytes_ne n2k e = cc
from_byte_num-size_in_bytes_ne leaf_page e = cc
