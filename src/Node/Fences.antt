-- ===== src/Node/Fences.antt =====
-- The fences of a node: a node that holds nothing else.
pub mod Installed
use quickstep.Base.{
  ℕ, ◌+◌, ◌-◌, ◌%◌, ◌^◌, List, [], ◌∷◌, Option, none, some, true, ltb, leb, if◌then◌else◌,
}
use quickstep.Base.{length}
use quickstep.Base.Memory.{write_bytes}
use quickstep.Types.RecordType.{cache}
use quickstep.Types.KvMeta
use quickstep.Types.NodeSize.{NodeSize, size_in_bytes}
use quickstep.Types.NodeMeta
use quickstep.Node.{Node, count, set_kv_meta, fence_bounds}

-- The word of a fence; the offset is set in a second step.
abbrev pub fence_meta : ℕ → ℕ → ℕ
fence_meta len offset = KvMeta.set_offset (KvMeta.new len 0 0 cache true true 0) (offset % 2 ^ 16)

abbrev pub place_fences : List ℕ → List ℕ → Node → ℕ → Node
place_fences lower upper n upper_at =
    let lower_at = upper_at - length lower in
    let page = write_bytes (write_bytes n.page upper_at upper) lower_at lower in
    let n₁ : Node = record { header = NodeMeta.set_record_count n.header 2; page = page } in
    let n₂ = set_kv_meta n₁ 0 (fence_meta (length lower) lower_at) in
    set_kv_meta n₂ 1 (fence_meta (length upper) upper_at)

-- `none` is a size that is no `NodeSize`, or the overflow of the cursor.
unfoldable pub install_fences : List ℕ → List ℕ → Node → Option Node
install_fences lower upper n = elim (NodeMeta.size n.header) [
  | none ↦ none
  | some size ↦
      if ltb (size_in_bytes size) (length upper + length lower)
      then none
      else some (place_fences lower upper n (size_in_bytes size - length upper))
]

unfoldable pub reset_user_entries_with_fences : List ℕ → List ℕ → Node → Option Node
reset_user_entries_with_fences lower upper n = install_fences lower upper n

unfoldable pub reset_user_entries : Node → Option Node
reset_user_entries n =
    if leb (count n) 2
    then some n
    else reset_user_entries_with_fences (fence_bounds n).0 (fence_bounds n).1 n

unfoldable pub ensure_fence_keys : Node → Option Node
ensure_fence_keys n = if leb 2 (count n) then some n else install_fences (0x00 ∷ []) (0xff ∷ []) n

unfoldable pub format_leaf : ℕ → NodeSize → ℕ → Node → Option Node
format_leaf page_id size disk_addr n =
    ensure_fence_keys (record n { header = NodeMeta.reset_header page_id size disk_addr })
