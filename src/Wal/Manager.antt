-- ===== src/Wal/Manager.antt =====
-- `WalManager`: the state behind the mutex, opened from a file and changed by each operation.
pub mod State
pub mod Counts
pub mod Open
pub mod Append
pub mod Rewrite
pub mod Retain
pub mod Checkpoint
pub mod Candidate
pub mod Grouped
pub mod Durable
