-- ===== src/Node.antt =====
-- src/node.rs: a leaf or mini-page. Behind its header of 16 bytes stand the KVMeta words, in the
-- order of the keys; keys and values stand at the end of the page, at the offsets in those words.
-- The header is kept apart from the bytes: nothing that is modelled reads or writes it as bytes.
pub mod Search
pub mod Words
pub mod Layout
pub mod Put
pub mod Remove
pub mod Fences
pub mod Examples
use quickstep.Base.{ℕ, zero, suc, ◌+◌, ◌-◌, ◌*◌, List, [], ◌∷◌, Bool, true, false, ◌&&◌}
use quickstep.Base.{Option, none, some, ◌==◌, ltb, leb, if◌then◌else◌, length, drop, get_or}
use quickstep.Base.Bytes.{to_le, from_le}
use quickstep.Base.Memory.{Memory, read_bytes, write_bytes}
use quickstep.Types.RecordType.{exists}
use quickstep.Types.KvMeta
use quickstep.Types.NodeMeta
use quickstep.Types.NodeMeta.{NodeMeta, header_bytes}

pub record Node : Type 0 where
  pub header : NodeMeta
  pub page : Memory

abbrev pub kv_bytes : ℕ
kv_bytes = 8

abbrev pub count : Node → ℕ
count n = NodeMeta.record_count n.header

abbrev pub meta_addr : ℕ → ℕ
meta_addr i = header_bytes + kv_bytes * i

unfoldable pub get_kv_meta : Node → ℕ → ℕ
get_kv_meta n i = from_le (read_bytes n.page kv_bytes (meta_addr i))

unfoldable pub set_kv_meta : Node → ℕ → ℕ → Node
set_kv_meta n i val = record n { page = write_bytes n.page (meta_addr i) (to_le kv_bytes val) }

unfoldable pub get_stored_key_from_meta : Node → ℕ → List ℕ
get_stored_key_from_meta n kv = read_bytes n.page (KvMeta.key_size kv) (KvMeta.offset kv)

unfoldable pub get_val_from_meta : Node → ℕ → List ℕ
get_val_from_meta n kv =
    read_bytes n.page (KvMeta.val_size kv) (KvMeta.offset kv + KvMeta.key_size kv)

-- `zip`, `take_while` and `count`, and the slice of that length.
unfoldable pub common_prefix : List ℕ → List ℕ → List ℕ
common_prefix [] bs = []
common_prefix (a ∷ as') [] = []
common_prefix (a ∷ as') (b ∷ bs) =
    let rest = common_prefix as' bs in if a == b then a ∷ rest else []

unfoldable pub fence_bounds : Node → List ℕ × List ℕ
fence_bounds n = (
  get_stored_key_from_meta n (get_kv_meta n 0),
  get_stored_key_from_meta n (get_kv_meta n (count n - 1)),
)

unfoldable pub get_node_prefix : Node → List ℕ
get_node_prefix n = common_prefix (fence_bounds n).0 (fence_bounds n).1

unfoldable pub get_lookahead : List ℕ → ℕ
get_lookahead key_suffix = get_or key_suffix 0 0 * 256 + get_or key_suffix 1 0

-- `key.starts_with(prefix)`
unfoldable pub starts_with : List ℕ → List ℕ → Bool
starts_with key [] = true
starts_with [] (p ∷ prefix) = false
starts_with (k ∷ key) (p ∷ prefix) = (k == p) && starts_with key prefix

-- `&key[n..]`; `none` is the panic on a shorter key.
unfoldable pub slice_from : ℕ → List ℕ → Option (List ℕ)
slice_from n key = if ltb (length key) n then none else some (drop n key)

pub record LeafEntry : Type 0 where
  pub meta : ℕ
  pub key_suffix : List ℕ
  pub value : List ℕ

-- `LeafEntryIter` run to its end, with `left` entries to go.
unfoldable pub entries_from : ℕ → ℕ → Node → List LeafEntry
entries_from zero i n = []
entries_from (suc left) i n =
    let rest = entries_from left (i + 1) n in
    let meta = get_kv_meta n i in
    if exists (KvMeta.typ meta)
    then record {
      meta = meta;
      key_suffix = get_stored_key_from_meta n meta;
      value = get_val_from_meta n meta;
    }
      ∷ rest
    else rest

unfoldable pub entries : Node → List LeafEntry
entries n = entries_from (count n) 0 n

unfoldable pub count_existing : List LeafEntry → ℕ
count_existing [] = 0
count_existing (e ∷ es) =
    let rest = count_existing es in if exists (KvMeta.typ e.meta) then suc rest else rest

unfoldable pub user_entry_count : Node → ℕ
user_entry_count n = count_existing (entries n)
