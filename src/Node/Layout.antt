-- ===== src/Node/Layout.antt =====
-- The invariant of a node.
use quickstep.Base.{ℕ, ◌+◌, ◌-◌, ◌≤◌, ◌<◌, ◌≡◌, List, false}
use quickstep.Base.Words.{IsU64}
use quickstep.Base.Memory.{IsApart}
use quickstep.Types.KvMeta
use quickstep.Node.{Node, count, meta_addr, get_kv_meta, get_val_from_meta}
use quickstep.Node.Search.Sorted.{IsOrdered, key_at}

abbrev pub val_at : Node → ℕ → List ℕ
val_at n i = get_val_from_meta n (get_kv_meta n i)

abbrev pub offset_at : Node → ℕ → ℕ
offset_at n i = KvMeta.offset (get_kv_meta n i)

abbrev pub len_at : Node → ℕ → ℕ
len_at n i = KvMeta.key_size (get_kv_meta n i) + KvMeta.val_size (get_kv_meta n i)

-- The entries are in order, and their bytes stand behind the words, each apart from the others.
pub record IsNode (n : Node) : Type 0 where
  pub ordered : IsOrdered n
  pub header : IsU64 n.header.w0
  pub words : (i : ℕ) → i < count n → IsU64 (get_kv_meta n i)
  pub user : (i : ℕ) → 1 ≤ i → i < count n - 1 → KvMeta.fence (get_kv_meta n i) ≡ false
  pub behind : (i : ℕ) → i < count n → meta_addr (count n) ≤ offset_at n i
  pub apart :
      (i j : ℕ)
      → i < j
      → j < count n
      → IsApart (offset_at n i) (len_at n i) (offset_at n j) (len_at n j)

-- The entry at `j` is the one that was at `i`.
abbrev pub IsSameEntry : Node → ℕ → Node → ℕ → Type 0
IsSameEntry n i n' j =
    (get_kv_meta n' j ≡ get_kv_meta n i) × (key_at n' j ≡ key_at n i) × (val_at n' j ≡ val_at n i)
