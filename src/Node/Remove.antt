-- ===== src/Node/Remove.antt =====
-- Tombstones, and entries that are taken out.
pub mod Erase
pub mod Lowest
pub mod Tombstone
use quickstep.Base.{ℕ, zero, suc, ◌+◌, ◌-◌, ◌*◌, ◌%◌, ◌^◌, List, [], ◌∷◌, Bool, true, false, Option}
use quickstep.Base.{none, some, ◌==◌, ◌||◌, not, ltb, leb, if◌then◌else◌, length, drop, min}
use quickstep.Base.Memory.{move_bytes}
use quickstep.Types.RecordType.{RecordType, tombstone}
use quickstep.Types.KvMeta
use quickstep.Types.NodeMeta
use quickstep.Node.{Node, count, kv_bytes, meta_addr, get_kv_meta, set_kv_meta, get_node_prefix}
use quickstep.Node.{starts_with}
use quickstep.Node.Search.{Found, found, missing, out_of_fuel, binary_search}

-- The loop: entries below the erased one move up by its length. The code sets the offset twice to
-- the same value.
unfoldable pub erase_loop : ℕ → ℕ → ℕ → ℕ → ℕ → Node → Node × ℕ
erase_loop zero i target_offset len min_offset n = (n, min_offset)
erase_loop (suc left) i target_offset len min_offset n =
    let kv = get_kv_meta n i in
    let cur_offset = KvMeta.offset kv in
    elim (ltb cur_offset target_offset) [
      | true ↦
          erase_loop left (i + 1) target_offset len (min min_offset cur_offset)
            (set_kv_meta n i (KvMeta.set_offset kv ((cur_offset + len) % 2 ^ 16)))
      | false ↦ erase_loop left (i + 1) target_offset len min_offset n
    ]

unfoldable pub erase_kv_in_buffer : ℕ → Node → Node × ℕ
erase_kv_in_buffer kv n =
    let len = KvMeta.key_size kv + KvMeta.val_size kv in
    let target_offset = KvMeta.offset kv in
    let (n₁, min_offset) = erase_loop (count n) 0 target_offset len target_offset n in
    if min_offset == target_offset then (n₁, target_offset + len) else (
      record n₁ { page = move_bytes n₁.page min_offset (min_offset + len) len },
      min_offset + len,
    )

unfoldable pub shift_meta_left : ℕ → Node → Node
shift_meta_left idx n = if leb (count n) (idx + 1) then n else record n {
  page = move_bytes n.page (meta_addr (idx + 1)) (meta_addr idx) (kv_bytes * (count n - idx - 1));
}

-- The node afterwards and the answer; `none` is the panic of a count of 0.
unfoldable pub remove_entry : ℕ → Node → Option (Node × Bool)
remove_entry idx n =
    let kv = get_kv_meta n idx in
    if leb (count n) idx
    then some (n, false)
    else if KvMeta.fence kv
    then some (n, false)
    else let n₁ = shift_meta_left idx (erase_kv_in_buffer kv n).0 in
      elim (NodeMeta.dec_record_count n₁.header) [
        | none ↦ none
        | some header ↦ some (record n₁ { header = header }, true)
      ]

unfoldable pub is_tombstone : RecordType → Bool
is_tombstone tombstone = true
is_tombstone t = false

unfoldable pub mark_entry_tombstone : ℕ → Node → Node × Bool
mark_entry_tombstone idx n =
    let kv = get_kv_meta n idx in
    if KvMeta.fence kv || is_tombstone (KvMeta.typ kv)
    then (n, false)
    else (set_kv_meta n idx (KvMeta.set_record_type kv tombstone), true)

unfoldable pub mark_tombstone : List ℕ → Node → Node × Bool
mark_tombstone key n =
    let prefix = get_node_prefix n in
    if not (starts_with key prefix)
    then (n, false)
    else elim (binary_search n (drop (length prefix) key)) [
      | found idx ↦ mark_entry_tombstone idx n
      | _ ↦ (n, false)
    ]

unfoldable pub remove_key_physical : List ℕ → Node → Option (Node × Bool)
remove_key_physical key n =
    let prefix = get_node_prefix n in
    if not (starts_with key prefix)
    then some (n, false)
    else elim (binary_search n (drop (length prefix) key)) [
      | found idx ↦ remove_entry idx n
      | missing idx ↦ some (n, false)
      | out_of_fuel ↦ none
    ]
