-- ===== src/Db.antt =====
-- src/lib.rs: the database, as its page table, its buffer, its disk and its log.
pub mod Config
pub mod Range
pub mod Recovery
pub mod Tx
use quickstep.Base.{ℕ}
use quickstep.Node.{Node}
use quickstep.Wal.Manager.State.{WalState}

-- The words of the page table, the mini-page at each index of the buffer, and the leaf at each
-- address of the disk.
pub record Db : Type 0 where
  pub capacity : ℕ
  pub words : ℕ → ℕ
  pub cache : ℕ → Node
  pub disk : ℕ → Node
  pub wal : WalState
