-- ===== src/PageOp/Flush.antt =====
-- flush_dirty_entries: the entries of a mini-page go to its leaf on disk.
use quickstep.Base.{
  ℕ, zero, suc, ◌+◌, List, [], ◌∷◌, ◌++◌, Option, none, some, true, false, if◌then◌else◌,
}
use quickstep.Types.RecordType.{is_dirty}
use quickstep.Types.KvMeta
use quickstep.Types.NodeMeta
use quickstep.Node.{Node, count, get_kv_meta, get_node_prefix, get_stored_key_from_meta}
use quickstep.Node.{get_val_from_meta}
use quickstep.Node.Put.{put_done, try_put_with_suffix}
use quickstep.Node.Remove.{is_tombstone, remove_key_physical, remove_entry}

-- `get_or_insert_with`
unfoldable pub disk_leaf : (ℕ → Node) → ℕ → Option Node → Node
disk_leaf get_page leaf_addr none = get_page leaf_addr
disk_leaf get_page leaf_addr (some leaf) = leaf

-- One entry that is no fence, on the leaf: the leaf afterwards and whether the entry is a tombstone.
-- `none` is a panic: the `expect` of a leaf without room, or one of the calls.
unfoldable pub flush_entry : ℕ → Node → Option Node → (ℕ → Node) → Option (Option Node)
flush_entry i n disk get_page =
    let kv = get_kv_meta n i in
    let leaf = disk_leaf get_page (NodeMeta.leaf n.header) disk in
    let suffix = get_stored_key_from_meta n kv in
    if is_tombstone (KvMeta.typ kv)
    then elim (remove_key_physical (get_node_prefix n ++ suffix) leaf) [
      | none ↦ none
      | some r ↦ some (some r.0)
    ]
    else if is_dirty (KvMeta.typ kv)
    then elim (try_put_with_suffix suffix (get_val_from_meta n kv) leaf) [
      | put_done leaf' ↦ some (some leaf')
      | _ ↦ none
    ]
    else some disk

-- The leaf, if it was read, and the tombstones, the last one first.
unfoldable pub flush_loop :
    ℕ → ℕ → Node → Option Node → List ℕ → (ℕ → Node) → Option (Option Node × List ℕ)
flush_loop zero i n disk tombstones get_page = some (disk, tombstones)
flush_loop (suc left) i n disk tombstones get_page =
    let kv = get_kv_meta n i in
    elim (KvMeta.fence kv) [
      | true ↦ flush_loop left (i + 1) n disk tombstones get_page
      | false ↦ elim (flush_entry i n disk get_page) [
        | none ↦ none
        | some disk' ↦
            let tombstones' = if is_tombstone (KvMeta.typ kv) then i ∷ tombstones else tombstones in
            flush_loop left (i + 1) n disk' tombstones' get_page
      ]
    ]

unfoldable pub remove_all : List ℕ → Node → Option Node
remove_all [] n = some n
remove_all (idx ∷ tombstones) n = elim (remove_entry idx n) [
  | none ↦ none
  | some r ↦ remove_all tombstones r.0
]

-- The mini-page afterwards, and the leaf that is written to disk.
unfoldable pub flush_dirty_entries : (ℕ → Node) → Node → Option (Node × Option Node)
flush_dirty_entries get_page n = elim (flush_loop (count n) 0 n none [] get_page) [
  | none ↦ none
  | some r ↦ elim (remove_all r.1 n) [ none ↦ none | some n' ↦ some (n', r.0) ]
]
