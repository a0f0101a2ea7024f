-- ===== src/PageOp/Access.antt =====
-- Reads and writes of one page: a mini-page in the buffer in front of a leaf on disk. The buffer is
-- the node at each index.
pub mod Cached
use quickstep.Base.{ℕ, List, Option, none, some, true, false, if◌then◌else◌, ◌==◌, length}
use quickstep.Types.RecordType.{exists}
use quickstep.Types.KvMeta
use quickstep.Types.NodeMeta
use quickstep.MapTable.Entry.{NodeRef, leaf_ref, mini_page}
use quickstep.Node.{Node, get_kv_meta, get_node_prefix, get_val_from_meta, slice_from}
use quickstep.Node.Search
use quickstep.Node.Search.{Found, found, missing, out_of_fuel, binary_search}
use quickstep.Node.Put
use quickstep.Node.Put.{PutResult, put_done, insufficient_space, put_panic}
use quickstep.PageOp.Flush.{flush_dirty_entries}

-- The leaf that the guard holds.
unfoldable pub ensure_page : (ℕ → Node) → Option Node → ℕ → Node
ensure_page get_page none addr = get_page addr
ensure_page get_page (some leaf) addr = leaf

-- The value, and the leaf that the guard holds afterwards.
abbrev pub Read : Type 0
Read = Option (List ℕ) × Option Node

unfoldable pub get_leaf : Node → List ℕ → Option Read
get_leaf leaf key = elim (Search.get leaf key) [ none ↦ none | some val ↦ some (val, some leaf) ]

-- The outer `none` is a panic.
unfoldable pub page_get : (ℕ → Node) → NodeRef → (ℕ → Node) → Option Node → List ℕ → Option Read
page_get get_page (leaf_ref addr) cache held key = get_leaf (ensure_page get_page held addr) key
page_get get_page (mini_page i) cache held key =
    let node_meta = cache i in
    elim (slice_from (length (get_node_prefix node_meta)) key) [
      | none ↦ none
      | some key_suffix ↦ elim (binary_search node_meta key_suffix) [
        | found at ↦
            let kv = get_kv_meta node_meta at in
            some
              (if exists (KvMeta.typ kv) then some (get_val_from_meta node_meta kv) else none, held)
        | missing at ↦ get_leaf (ensure_page get_page held (NodeMeta.leaf node_meta.header)) key
        | out_of_fuel ↦ none
      ]
    ]

unfoldable pub set_node : (ℕ → Node) → ℕ → Node → ℕ → Node
set_node cache i n j = if j == i then n else cache j

pub data TryPutResult : Type 0 where
  success needs_split : TryPutResult
  needs_promotion : (addr : ℕ) → TryPutResult

-- The answer, and the buffer afterwards.
unfoldable pub page_try_put :
    NodeRef → (ℕ → Node) → List ℕ → List ℕ → Option (TryPutResult × (ℕ → Node))
page_try_put (leaf_ref addr) cache key val = some (needs_promotion addr, cache)
page_try_put (mini_page i) cache key val = elim (Put.try_put key val (cache i)) [
  | put_done n ↦ some (success, set_node cache i (record n { header = NodeMeta.mark_hot n.header }))
  | insufficient_space n ↦ some (needs_split, set_node cache i n)
  | put_panic ↦ none
]

-- The buffer afterwards, and the leaf that is written to disk. A page that is no mini-page panics.
unfoldable pub merge_to_disk : (ℕ → Node) → NodeRef → (ℕ → Node) → Option ((ℕ → Node) × Option Node)
merge_to_disk get_page (leaf_ref addr) cache = none
merge_to_disk get_page (mini_page i) cache = elim (flush_dirty_entries get_page (cache i)) [
  | none ↦ none
  | some r ↦ some (set_node cache i r.0, r.1)
]
