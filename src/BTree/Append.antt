-- ===== src/BTree/Append.antt =====
-- A pivot and its right child are appended to a node.
pub mod Room
use quickstep.Base.{
  ℕ, ◌+◌, ◌-◌, ◌*◌, ◌%◌, ◌^◌, List, ◌++◌, length, true, false, ◌==◌, ltb, if◌then◌else◌,
}
use quickstep.Base.Bytes.{to_le}
use quickstep.Base.Memory.{write_bytes}
use quickstep.Utils.{store_u48, store_u32}
use quickstep.BTree.{
  BpNode, max_key_length, inline_buffer_len, leaf_child_bytes, meta_bytes, space_left,
}

pub data BpError : Type 0 where
  key_too_large node_full parent_child_missing : BpError

-- `Ok(())`, an error with the node as it is left, and a panic.
pub data BpResult : Type 0 where
  bp_done : BpNode → BpResult
  bp_failed : BpError → BpNode → BpResult
  bp_panic : BpResult

-- The bytes of the key, of the child and of the word, whose two numbers have 16 bits, and one more pivot.
unfoldable pub write_entry : List ℕ → List ℕ → ℕ → BpNode → BpNode
write_entry key child key_start n =
    let rest₁ = write_bytes n.rest key_start key in
    let rest₂ = write_bytes rest₁ (key_start + length key) child in
    let rest₃ = write_bytes rest₂ (meta_bytes * n.count) (to_le 2 key_start) in
    record n {
      count = n.count + 1;
      rest = write_bytes rest₃ (meta_bytes * n.count + 2) (to_le 2 (length key));
    }

-- The two appends, for a child of that many bytes. `copy_from_slice` panics on other lengths, and a
-- slice that leaves the buffer does too.
unfoldable pub append_entry : ℕ → List ℕ → List ℕ → BpNode → BpResult
append_entry child_size key child n =
    let needed = length key + child_size in
    if ltb max_key_length (length key)
    then bp_failed key_too_large n
    else if ltb (space_left n) (needed + meta_bytes)
    then bp_failed node_full n
    else if ltb n.alloc_idx needed
    then bp_failed node_full n
    else let key_start = n.alloc_idx - needed + 1 in
      if ltb inline_buffer_len (key_start + needed)
      then bp_panic
      else if length child == child_size
      then bp_done (write_entry key child key_start (record n { alloc_idx = n.alloc_idx - needed }))
      else bp_panic

unfoldable pub append_leaf_entry : List ℕ → ℕ → BpNode → BpResult
append_leaf_entry key child n = append_entry leaf_child_bytes key (store_u48 child) n

unfoldable pub append_inner_entry : List ℕ → ℕ → BpNode → BpResult
append_inner_entry key child n = append_entry 4 key (store_u32 child) n
