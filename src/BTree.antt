-- ===== src/BTree.antt =====
-- src/btree.rs: the inner nodes of the tree. The pivots' words stand at the start of a node's buffer,
-- keys and children at its end. The version lock is kept apart.
pub mod Search
pub mod Append
pub mod Rebuild
pub mod Tree
mod Examples
use quickstep.Base.{
  ℕ, ◌+◌, ◌-◌, ◌*◌, ◌/◌, ◌%◌, ◌^◌, List, Option, none, some, Bool, true, false, ◌==◌,
}
use quickstep.Base.{ltb, leb, if◌then◌else◌, bit_and, not}
use quickstep.Base.Bytes.{from_le}
use quickstep.Base.Memory.{Memory, read_bytes}
use quickstep.Utils.{extract_u48, extract_u32}

abbrev pub max_key_length : ℕ
max_key_length = 64

abbrev pub inline_buffer_len : ℕ
inline_buffer_len = 4072

abbrev pub leaf_child_bytes : ℕ
leaf_child_bytes = 6

abbrev pub meta_bytes : ℕ
meta_bytes = 4

pub record BpNode : Type 0 where
  pub count : ℕ
  pub alloc_idx : ℕ
  pub lowest : ℕ
  pub rest : Memory

pub record BpKvMeta : Type 0 where
  pub start_offset : ℕ
  pub key_len : ℕ

unfoldable pub get_meta : BpNode → ℕ → BpKvMeta
get_meta n idx = record {
  start_offset = from_le (read_bytes n.rest 2 (meta_bytes * idx));
  key_len = from_le (read_bytes n.rest 2 (meta_bytes * idx + 2));
}

-- `none` is the panic of a slice that leaves the buffer.
unfoldable pub get_key : BpNode → ℕ → Option (List ℕ)
get_key n idx =
    let m = get_meta n idx in
    if ltb inline_buffer_len (m.start_offset + m.key_len)
    then none
    else some (read_bytes n.rest m.key_len m.start_offset)

-- The bytes of the child behind the key of a word, which `extract_u48` and `extract_u32` read.
unfoldable pub child_at_ptr : BpNode → ℕ → ℕ → List ℕ
child_at_ptr n idx size =
    let m = get_meta n idx in read_bytes n.rest size (m.start_offset + m.key_len)

unfoldable pub get_leaf_child : BpNode → ℕ → ℕ
get_leaf_child n idx = extract_u48 (child_at_ptr n idx leaf_child_bytes)

unfoldable pub get_inner_child : BpNode → ℕ → ℕ
get_inner_child n idx = extract_u32 (child_at_ptr n idx 4)

-- The difference wraps around when the buffer is exactly full, and the sum is 0 again.
unfoldable pub space_left : BpNode → ℕ
space_left n = (n.alloc_idx + 2 ^ 64 - meta_bytes * n.count + 1) % 2 ^ 64

unfoldable pub can_overflow : BpNode → ℕ → Bool
can_overflow n level =
    let child_size = if level == 1 then leaf_child_bytes else 4 in
    ltb (space_left n) (meta_bytes + max_key_length + child_size)

unfoldable pub will_underflow : BpNode → Bool
will_underflow n = leb (space_left n) (inline_buffer_len / 2)

unfoldable pub blank : BpNode
blank = record { count = 0; alloc_idx = inline_buffer_len - 1; lowest = 2 ^ 64 - 1; rest = λ i. 0 }

-- The version word of a node.
unfoldable pub set_locked_bit : ℕ → ℕ
set_locked_bit version = version + 2

unfoldable pub is_obsolete : ℕ → Bool
is_obsolete version = bit_and version 1 == 1

unfoldable pub is_locked_or_obsolete : ℕ → Bool
is_locked_or_obsolete version = not (bit_and version 3 == 0)
