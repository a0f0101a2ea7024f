-- ===== src/Types/NodeMeta/Header.antt =====
-- The header words against a plain record of their fields.
use quickstep.Base.{ℕ, ◌+◌, ◌-◌, ◌*◌, ◌/◌, ◌%◌, ◌^◌, ◌<◌, ◌≡◌, ap, ◌∙◌, arith, Bool, true, false}
use quickstep.Base.{none, some, ◌==◌}
use quickstep.Base.Bits.{and_low, and_field, and_outside, or_flag, or_low, or_zero}
use quickstep.Base.Bits.{zero_or, and_parts, or_parts}
use quickstep.Base.Words.{IsU64, from_bool}
use quickstep.Types.NodeSize.{
  NodeSize, leaf_page, index, from_index, size_in_bytes, from_index-index,
}
use quickstep.Types.NodeMeta
use quickstep.Types.NodeMeta.{NodeMeta}

pub record Fields : Type 0 where
  pub leaf : ℕ
  pub size_bits : ℕ
  pub evicting : Bool
  pub live : Bool
  pub count : ℕ
  pub page : ℕ

-- What the getters read, the size as its three bits.
unfoldable pub fields : NodeMeta → Fields
fields n = record {
  leaf = NodeMeta.leaf n;
  size_bits = NodeMeta.size_bits n;
  evicting = NodeMeta.is_being_evicted n;
  live = NodeMeta.is_live n;
  count = NodeMeta.record_count n;
  page = NodeMeta.page_id n;
}

abbrev pub IsHeader : NodeMeta → Type 0
IsHeader n = IsU64 n.w0 × IsU64 n.w1

abbrev unpack : NodeMeta → Fields
unpack n = record {
  leaf = n.w0 / 2 ^ 16;
  size_bits = n.w0 / 2 ^ 13 % 8;
  evicting = n.w0 / 2 ^ 12 % 2 == 1;
  live = n.w0 / 2 ^ 10 % 2 == 1;
  count = n.w0 % 2 ^ 9;
  page = n.w1 / 2 ^ 16;
}

fields-eq-unpack : (n : NodeMeta) → fields n ≡ unpack n
unfolding fields NodeMeta.leaf NodeMeta.size_bits NodeMeta.is_being_evicted NodeMeta.is_live
    NodeMeta.record_count NodeMeta.page_id
fields-eq-unpack n =
    ground
      (arith, and_low 3 (n.w0 / 2 ^ 13), and_field 12 1 n.w0, and_field 10 1 n.w0, and_low 9 n.w0)

-- Marking a page hot leaves all fields but the size alone, and sets the lowest bit of the size.
pub fields-mark_hot :
    (n : NodeMeta)
    → fields (NodeMeta.mark_hot n)
      ≡ record (fields n) { size_bits = (fields n).size_bits / 2 * 2 + 1 }
unfolding NodeMeta.mark_hot
fields-mark_hot n = rw (fields-eq-unpack, fields-eq-unpack) (ground (arith, or_flag 13 n.w0))

size_bits-mark_hot :
    (n : NodeMeta) → NodeMeta.size_bits (NodeMeta.mark_hot n) ≡ NodeMeta.size_bits n / 2 * 2 + 1
unfolding fields
size_bits-mark_hot n = ap (λ (f : Fields). f.size_bits) (fields-mark_hot n)

from_index-leaf_page : (i : ℕ) → from_index i ≡ some leaf_page → i ≡ 6
unfolding from_index
from_index-leaf_page i h = ground arith

-- A page of the full leaf size reads back as no `NodeSize` at all once it is marked hot.
pub size-mark_hot_leaf_page :
    (n : NodeMeta) → NodeMeta.size n ≡ some leaf_page → NodeMeta.size (NodeMeta.mark_hot n) ≡ none
unfolding NodeMeta.size from_index
size-mark_hot_leaf_page n h =
    ground (arith, size_bits-mark_hot n, from_index-leaf_page (NodeMeta.size_bits n) h)

-- A page that was never marked hot is taken for a hot one exactly when its size is 128, 512 or
-- 2048 bytes: the hot bit is the lowest bit of the size.
pub is_hot-size_bits : (n : NodeMeta) → NodeMeta.is_hot n ≡ (NodeMeta.size_bits n % 2 == 1)
unfolding NodeMeta.is_hot NodeMeta.size_bits
is_hot-size_bits n = ground (arith, and_low 3 (n.w0 / 2 ^ 13), and_field 13 1 n.w0)

set_live_sum :
    (n : NodeMeta) (b : Bool)
    → IsU64 n.w0
    → (NodeMeta.set_live n b).w0 ≡ (n.w0 / 2 ^ 11 * 2 + from_bool b) * 2 ^ 10 + n.w0 % 2 ^ 10
unfolding NodeMeta.set_live
set_live_sum n true h = ground (arith, or_flag 10 n.w0)
set_live_sum n false h =
    ground (arith, and_outside 10 11 (2 ^ 53 - 1) n.w0 (omega arith), and_low 53 (n.w0 / 2 ^ 11))

set_evicted_sum :
    (n : NodeMeta) (b : Bool)
    → IsU64 n.w0
    → (NodeMeta.set_being_evicted n b).w0
      ≡ (n.w0 / 2 ^ 13 * 2 + from_bool b) * 2 ^ 12 + n.w0 % 2 ^ 12
unfolding NodeMeta.set_being_evicted
set_evicted_sum n true h = ground (arith, or_flag 12 n.w0)
set_evicted_sum n false h =
    ground (arith, and_outside 12 13 (2 ^ 51 - 1) n.w0 (omega arith), and_low 51 (n.w0 / 2 ^ 13))

fields-set_live :
    (n : NodeMeta) (b : Bool)
    → IsU64 n.w0
    → fields (NodeMeta.set_live n b) ≡ record (fields n) { live = b }
unfolding NodeMeta.set_live
fields-set_live n true h =
    rw (fields-eq-unpack, fields-eq-unpack) (ground (arith, set_live_sum n true h))
fields-set_live n false h =
    rw (fields-eq-unpack, fields-eq-unpack) (ground (arith, set_live_sum n false h))

fields-set_being_evicted :
    (n : NodeMeta) (b : Bool)
    → IsU64 n.w0
    → fields (NodeMeta.set_being_evicted n b) ≡ record (fields n) { evicting = b }
unfolding NodeMeta.set_being_evicted
fields-set_being_evicted n true h =
    rw (fields-eq-unpack, fields-eq-unpack) (ground (arith, set_evicted_sum n true h))
fields-set_being_evicted n false h =
    rw (fields-eq-unpack, fields-eq-unpack) (ground (arith, set_evicted_sum n false h))

-- `set_live` and `set_being_evicted` each change their own flag and no other field.
pub fields-set_flags :
    (n : NodeMeta) (b : Bool)
    → IsU64 n.w0
    → (fields (NodeMeta.set_live n b) ≡ record (fields n) { live = b })
      × (fields (NodeMeta.set_being_evicted n b) ≡ record (fields n) { evicting = b })
fields-set_flags n b h = (fields-set_live n b h, fields-set_being_evicted n b h)

set_record_count_sum :
    (n : NodeMeta) (c : ℕ)
    → IsU64 n.w0
    → (NodeMeta.set_record_count n c).w0 ≡ n.w0 / 2 ^ 9 * 2 ^ 9 + c % 2 ^ 9
unfolding NodeMeta.set_record_count
set_record_count_sum n c h = ground (
  arith,
  and_outside 0 9 (2 ^ 55 - 1) n.w0 (omega arith),
  and_low 55 (n.w0 / 2 ^ 9),
  and_low 9 c,
  or_low 9 (n.w0 / 2 ^ 9) (c % 2 ^ 9),
)

-- The count is kept modulo 512: `set_record_count` changes no other field.
pub fields-set_record_count :
    (n : NodeMeta) (c : ℕ)
    → IsU64 n.w0
    → fields (NodeMeta.set_record_count n c) ≡ record (fields n) { count = c % 512 }
unfolding NodeMeta.set_record_count
fields-set_record_count n c h =
    rw (fields-eq-unpack, fields-eq-unpack) (ground (arith, set_record_count_sum n c h))

pub set_record_count-IsU64 :
    (n : NodeMeta) (c : ℕ) → IsU64 n.w0 → IsU64 (NodeMeta.set_record_count n c).w0
set_record_count-IsU64 n c h = omega (arith, set_record_count_sum n c h)

index-lt : (s : NodeSize) → index s < 7
unfolding index
index-lt s = ground arith

reset_w0 :
    (page : ℕ) (s : NodeSize) (addr : ℕ)
    → addr < 2 ^ 48
    → (NodeMeta.reset_header page s addr).w0 ≡ (addr * 8 + index s) * 2 ^ 13 + 2 ^ 10
unfolding NodeMeta.reset_header
reset_w0 page s addr h =
    let x : ℕ = (addr * 8 + index s) * 2 ^ 13 in
    ground (
      arith,
      index-lt s,
      or_low 16 addr (index s * 2 ^ 13),
      and_outside 9 13 (2 ^ 51 - 1) x (omega arith),
      and_parts 13 (addr * 8 + index s) 0 (2 ^ 51 - 1) (2 ^ 13 - 1 - 2 ^ 9 - 2 ^ 11 - 2 ^ 12),
      and_low 51 (addr * 8 + index s),
      or_low 13 (addr * 8 + index s) (2 ^ 10),
      and_outside 0 9 (2 ^ 55 - 1) (x + 2 ^ 10) (omega arith),
      and_low 55 ((x + 2 ^ 10) / 2 ^ 9),
      or_zero (x + 2 ^ 10),
    )

reset_w1 :
    (page : ℕ) (s : NodeSize) (addr : ℕ)
    → page < 2 ^ 48
    → (NodeMeta.reset_header page s addr).w1 / 2 ^ 16 ≡ page
unfolding NodeMeta.reset_header
reset_w1 page s addr h =
    let free : ℕ = size_in_bytes s - 16 in
    ground (arith, and_low 16 free, or_low 16 page (free % 2 ^ 16))

abbrev pub blank : ℕ → NodeSize → ℕ → Fields
blank page s addr = record {
  leaf = addr;
  size_bits = index s;
  evicting = false;
  live = true;
  count = 0;
  page = page;
}

size_of_fields :
    (n : NodeMeta) (s : NodeSize) → (fields n).size_bits ≡ index s → NodeMeta.size n ≡ some s
unfolding fields NodeMeta.size
size_of_fields n s h = ap from_index h ∙ from_index-index s

-- After `reset_header` the page is live, is not being evicted, holds no record, and has the given
-- page id, disk address and size, where both numbers fit 48 bits.
pub fields-reset_header :
    (page : ℕ) (s : NodeSize) (addr : ℕ)
    → page < 2 ^ 48
    → addr < 2 ^ 48
    → (fields (NodeMeta.reset_header page s addr) ≡ blank page s addr)
      × (NodeMeta.size (NodeMeta.reset_header page s addr) ≡ some s)
fields-reset_header page s addr hp ha = (all_fields, whole_size)
  where
    all_fields : fields (NodeMeta.reset_header page s addr) ≡ blank page s addr
    all_fields =
        rw fields-eq-unpack
          (ground (arith, reset_w1 page s addr hp, reset_w0 page s addr ha, index-lt s))

    whole_size : NodeMeta.size (NodeMeta.reset_header page s addr) ≡ some s
    whole_size = size_of_fields _ s (ap (λ (f : Fields). f.size_bits) all_fields)

-- `set_identity` sets the page id and the disk address, and changes no other field, where both
-- numbers fit 48 bits.
pub fields-set_identity :
    (n : NodeMeta) (page addr : ℕ)
    → page < 2 ^ 48
    → addr < 2 ^ 48
    → fields (NodeMeta.set_identity n page addr) ≡ record (fields n) { leaf = addr; page = page }
unfolding NodeMeta.set_identity
fields-set_identity n page addr hp ha =
    rw (fields-eq-unpack, fields-eq-unpack)
      (ground (
        arith,
        and_low 16 n.w0,
        and_low 16 n.w1,
        or_parts 16 0 (n.w0 % 2 ^ 16) addr 0,
        or_parts 16 0 (n.w1 % 2 ^ 16) page 0,
        or_zero (n.w0 % 2 ^ 16),
        or_zero (n.w1 % 2 ^ 16),
        zero_or addr,
        zero_or page,
      ))

pub mark_hot-IsU64 : (n : NodeMeta) → IsU64 n.w0 → IsU64 (NodeMeta.mark_hot n).w0
unfolding NodeMeta.mark_hot
mark_hot-IsU64 n h = ground (arith, or_flag 13 n.w0)

pub record_count-mark_hot :
    (n : NodeMeta) → NodeMeta.record_count (NodeMeta.mark_hot n) ≡ NodeMeta.record_count n
unfolding fields
record_count-mark_hot n = ap (λ (f : Fields). f.count) (fields-mark_hot n)
