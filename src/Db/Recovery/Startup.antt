-- ===== src/Db/Recovery/Startup.antt =====
-- `QuickStep::new`: what is left of the log and of the leaves.
use quickstep.Base.{ℕ, ◌≤◌, ◌<◌, ◌≡◌, ◌≢◌}
use quickstep.Base.{List, [], ◌∷◌, some}
use quickstep.Types.NodeMeta
use quickstep.Wal.Manager.State.{open_file}
use quickstep.Node.{Node, count, fence_bounds}
use quickstep.Node.Layout.{IsNode}
use quickstep.Buffer
use quickstep.MapTable.Entry
use quickstep.Db.{Db}
use quickstep.Db.Recovery.{replay_wal}
use quickstep.Db.Recovery.{ensure_root_leaf_on_disk}

-- A replay of no page: the log is cleared all the same.
abbrev IsForgotten : Db → Db → Type 0
IsForgotten db db' = (db'.wal.records ≡ []) × (db'.disk ≡ db.disk) × (db'.capacity ≡ db.capacity)

-- A formatted leaf is empty, with the widest fences.
abbrev pub IsEmptyLeaf : Node → Type 0
IsEmptyLeaf n = IsNode n × (count n ≡ 2) × (fence_bounds n ≡ (0x00 ∷ [], 0xff ∷ []))

-- The leaves are those from before; only leaf 0 is formatted, if it has no fences yet.
pub record IsFormatted (disk disk' : ℕ → Node) : Type 0 where
  pub others : (addr : ℕ) → addr ≢ 0 → disk' addr ≡ disk addr
  pub kept : 2 ≤ count (disk 0) → disk' 0 ≡ disk 0
  pub formatted : count (disk 0) < 2 → IsEmptyLeaf (disk' 0)

abbrev fresh : ℕ → List ℕ → (ℕ → Node) → (ℕ → Node) → Db
fresh capacity log cache disk = record {
  capacity = capacity;
  words = λ page. 0;
  cache = cache;
  disk = disk;
  wal = open_file log;
}

-- The database before its page table gets its first entry.
record IsOpened (capacity : ℕ) (log : List ℕ) (cache disk : ℕ → Node) : Type 0 where
  disk' : ℕ → Node
  after : Db
  ensures :
      ensure_root_leaf_on_disk (fresh capacity log cache disk)
      ≡ some (record (fresh capacity log cache disk) { disk = disk' })
  replays : replay_wal (record (fresh capacity log cache disk) { disk = disk' }) ≡ some after
  records : after.wal.records ≡ []
  formatted : IsFormatted disk after.disk
  size : after.capacity ≡ capacity
