-- ===== src/Types/NodeMeta.antt =====
-- The header of a leaf or mini-page: two words, `NodeMeta(u64, u64)`.
-- | leaf 48 | size 3 | evicting 1 | free-listed 1 | live 1 | split 1 | record count 9 |
-- | page id 48 | free 16 |
pub mod Header
use quickstep.Base.{ℕ, ◌+◌, ◌-◌, ◌^◌, Bool, true, false, Option, none, some, ◌||◌}
use quickstep.Base.{not, bit_and, bit_or, ◌==◌, if◌then◌else◌}
use quickstep.Base.Words.{shl, shr, bit_not}
use quickstep.Types.NodeSize.{NodeSize, index, from_index, size_in_bytes}

pub record NodeMeta : Type 0 where
  pub w0 : ℕ
  pub w1 : ℕ

abbrev pub record_count_mask : ℕ
record_count_mask = 0x1ff

abbrev pub split_bit : ℕ
split_bit = 2 ^ 9

abbrev pub live_bit : ℕ
live_bit = 2 ^ 10

abbrev pub freelist_bit : ℕ
freelist_bit = 2 ^ 11

abbrev pub evict_bit : ℕ
evict_bit = 2 ^ 12

abbrev pub hot_bit : ℕ
hot_bit = 2 ^ 13

-- `size_of::<NodeMeta>()`
abbrev pub header_bytes : ℕ
header_bytes = 16

unfoldable pub leaf : NodeMeta → ℕ
leaf n = shr n.w0 16

-- `transmute` of bits 13 to 15; `none` is the pattern that is no `NodeSize`.
unfoldable pub size_bits : NodeMeta → ℕ
size_bits n = bit_and (shr n.w0 13) 7

unfoldable pub size : NodeMeta → Option NodeSize
unfolding from_index size_bits
size n = from_index (size_bits n)

unfoldable pub set_flag : NodeMeta → ℕ → Bool → NodeMeta
set_flag n mask true = record n { w0 = bit_or n.w0 mask }
set_flag n mask false = record n { w0 = bit_and n.w0 (bit_not mask) }

unfoldable pub is_live : NodeMeta → Bool
is_live n = not (bit_and n.w0 live_bit == 0)

unfoldable pub set_live : NodeMeta → Bool → NodeMeta
unfolding set_flag
set_live n live = set_flag n live_bit live

unfoldable pub is_being_evicted : NodeMeta → Bool
is_being_evicted n = not (bit_and n.w0 evict_bit == 0)

unfoldable pub set_being_evicted : NodeMeta → Bool → NodeMeta
unfolding set_flag
set_being_evicted n val = set_flag n evict_bit val

-- `Err(())` is `none`.
unfoldable pub mark_for_eviction : NodeMeta → Option NodeMeta
unfolding is_being_evicted is_live set_being_evicted
mark_for_eviction n =
    if is_being_evicted n || not (is_live n) then none else some (set_being_evicted n true)

unfoldable pub clear_eviction : NodeMeta → NodeMeta
unfolding set_being_evicted
clear_eviction n = set_being_evicted n false

unfoldable pub is_hot : NodeMeta → Bool
is_hot n = not (bit_and n.w0 hot_bit == 0)

unfoldable pub mark_hot : NodeMeta → NodeMeta
unfolding set_flag
mark_hot n = set_flag n hot_bit true

unfoldable pub clear_hot : NodeMeta → NodeMeta
unfolding set_flag
clear_hot n = set_flag n hot_bit false

unfoldable pub record_count : NodeMeta → ℕ
record_count n = bit_and n.w0 record_count_mask

-- The argument is a u16.
unfoldable pub set_record_count : NodeMeta → ℕ → NodeMeta
set_record_count n count = record n {
  w0 = bit_or (bit_and n.w0 (bit_not record_count_mask)) (bit_and count record_count_mask);
}

-- `checked_add(1)` on u16 panics at 65535, which a count of nine bits never is.
unfoldable pub inc_record_count : NodeMeta → NodeMeta
unfolding record_count set_record_count
inc_record_count n = set_record_count n (record_count n + 1)

-- `checked_sub(1)` panics at 0: `none`.
unfoldable pub dec_record_count : NodeMeta → Option NodeMeta
unfolding record_count set_record_count
dec_record_count n =
    if record_count n == 0 then none else some (set_record_count n (record_count n - 1))

unfoldable pub page_id : NodeMeta → ℕ
page_id n = shr n.w1 16

unfoldable pub reset_header : ℕ → NodeSize → ℕ → NodeMeta
unfolding index size_in_bytes set_record_count
reset_header page size disk_addr =
    let a = bit_or (shl disk_addr 16) (shl (index size) 13) in
    let b = bit_and a (bit_not (bit_or (bit_or split_bit freelist_bit) evict_bit)) in
    let w0 = bit_or b live_bit in
    let free = size_in_bytes size - header_bytes in
    let w1 = bit_or (shl page 16) (bit_and free 0xffff) in
    set_record_count (record { w0 = w0; w1 = w1 }) 0

unfoldable pub set_disk_addr : NodeMeta → ℕ → NodeMeta
set_disk_addr n addr = record n { w0 = bit_or (bit_and n.w0 0xffff) (shl addr 16) }

unfoldable pub set_page_id_field : NodeMeta → ℕ → NodeMeta
set_page_id_field n page = record n { w1 = bit_or (bit_and n.w1 0xffff) (shl page 16) }

unfoldable pub set_identity : NodeMeta → ℕ → ℕ → NodeMeta
unfolding set_disk_addr set_page_id_field
set_identity n page addr = set_page_id_field (set_disk_addr n addr) page
