-- ===== src/Node/Put.antt =====
-- `try_put`, and `replay_entries`.
pub mod Insert
pub mod Kept
pub mod Result
pub mod Update
pub mod Spec
pub mod Room
pub mod Replay
use quickstep.Base.{ℕ, zero, suc, ◌+◌, ◌-◌, ◌*◌, ◌%◌, ◌^◌, List, [], ◌∷◌, Option, none, some}
use quickstep.Base.{true, false, ◌&&◌, ◌==◌, ltb, if◌then◌else◌, length, min}
use quickstep.Base.Memory.{write_bytes, move_bytes}
use quickstep.Types.RecordType.{insert}
use quickstep.Types.KvMeta
use quickstep.Types.NodeMeta
use quickstep.Node.{Node, count, kv_bytes, meta_addr, get_kv_meta, set_kv_meta, get_node_prefix}
use quickstep.Node.{get_lookahead, slice_from}
use quickstep.Node.Search.{Found, found, missing, out_of_fuel, binary_search}
use quickstep.Node.Remove.{erase_kv_in_buffer}

-- `Ok(())`, `Err(InsufficientSpace)` and a panic. An error may leave the node changed.
pub data PutResult : Type 0 where
  put_done insufficient_space : Node → PutResult
  put_panic : PutResult

-- The smallest offset of the entries from `i` on.
unfoldable pub min_offset_from : ℕ → ℕ → ℕ → Node → ℕ
min_offset_from zero i acc n = acc
min_offset_from (suc left) i acc n =
    min_offset_from left (i + 1) (min acc (KvMeta.offset (get_kv_meta n i))) n

-- `expect`: a node without entries panics.
unfoldable pub find_min_offset : Node → Option ℕ
find_min_offset n =
    if count n == 0
    then none
    else some (min_offset_from (count n - 1) 1 (KvMeta.offset (get_kv_meta n 0)) n)

-- The two `copy_from_slice`, which panic when the word does not hold the lengths.
unfoldable pub copy_record : ℕ → List ℕ → List ℕ → Node → PutResult
copy_record kv key_suffix val n =
    if (KvMeta.key_size kv == length key_suffix) && (KvMeta.val_size kv == length val)
    then put_done (record n {
      page =
          write_bytes (write_bytes n.page (KvMeta.offset kv) key_suffix)
            (KvMeta.offset kv + KvMeta.key_size kv) val;
    })
    else put_panic

-- The words from the index on move up by one.
unfoldable pub shift_meta_right : ℕ → Node → Node
shift_meta_right idx n = record n {
  page = move_bytes n.page (meta_addr idx) (meta_addr (idx + 1)) (kv_bytes * (count n - idx));
}

-- The arm for an existing key of a value of another length: it ends in an error, with offsets
-- changed already, or in the `todo!()` of `set_val_size`. An overflow of the offset is a panic too.
unfoldable pub put_other_length : ℕ → List ℕ → List ℕ → Node → PutResult
put_other_length target_kv key_suffix val n =
    let (n₁, alloc_ptr) = erase_kv_in_buffer target_kv n in
    let new_size = length key_suffix + length val in
    let meta_end = (count n₁ + 1) * kv_bytes in
    if ltb alloc_ptr new_size
    then put_panic
    else if ltb (alloc_ptr - new_size) meta_end
    then insufficient_space n₁
    else put_panic

-- The new word, with the lengths and the offset as the code passes them.
abbrev pub new_record_meta : List ℕ → List ℕ → ℕ → ℕ
new_record_meta key_suffix val new_offset =
    KvMeta.new (length key_suffix) (length val) new_offset insert false true
      (get_lookahead key_suffix)

unfoldable pub put_new : ℕ → List ℕ → List ℕ → Node → PutResult
put_new idx key_suffix val n = elim (find_min_offset n) [
  | none ↦ put_panic
  | some min_offset ↦
      let size = length key_suffix + length val in
      let new_offset = min_offset - size in
      let meta_end = (count n + 2) * kv_bytes in
      if ltb min_offset size
      then insufficient_space n
      else if ltb new_offset meta_end
      then insufficient_space n
      else let new_meta = new_record_meta key_suffix val new_offset in
        let n₂ = set_kv_meta (shift_meta_right idx n) idx new_meta in
        let n₃ = record n₂ { header = NodeMeta.inc_record_count n₂.header } in
        copy_record new_meta key_suffix val n₃
]

unfoldable pub put_existing : ℕ → List ℕ → List ℕ → Node → PutResult
put_existing idx key_suffix val n =
    let target_kv = get_kv_meta n idx in
    if KvMeta.val_size target_kv == length val
    then put_done (record n {
      page = write_bytes n.page (KvMeta.offset target_kv + KvMeta.key_size target_kv) val;
    })
    else put_other_length target_kv key_suffix val n

unfoldable pub try_put_with_suffix : List ℕ → List ℕ → Node → PutResult
try_put_with_suffix key_suffix val n = elim (binary_search n key_suffix) [
  | found idx ↦ put_existing idx key_suffix val n
  | missing idx ↦ put_new idx key_suffix val n
  | out_of_fuel ↦ put_panic
]

unfoldable pub try_put : List ℕ → List ℕ → Node → PutResult
try_put key val n = elim (slice_from (length (get_node_prefix n)) key) [
  | none ↦ put_panic
  | some key_suffix ↦ try_put_with_suffix key_suffix val n
]

unfoldable pub replay_entries : List (List ℕ × List ℕ) → Node → PutResult
replay_entries [] n = put_done n
replay_entries ((key, value) ∷ entries) n = elim (try_put key value n) [
  | put_done n' ↦ replay_entries entries n'
  | insufficient_space n' ↦ insufficient_space n'
  | put_panic ↦ put_panic
]
