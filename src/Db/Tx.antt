-- ===== src/Db/Tx.antt =====
-- What a transaction writes to the log.
pub mod Logged
pub mod Changes
pub mod Restored
mod Examples
use quickstep.Base.{ℕ, List, Option, none, some}
use quickstep.Wal.Record.{redo, undo}
use quickstep.Wal.Manager.State.{WalState}
use quickstep.Wal.Manager.Durable.{append_put, append_tombstone}

-- The leaf that the record is about: its page and its fences.
pub record LeafSnapshot : Type 0 where
  pub page : ℕ
  pub lower : List ℕ
  pub upper : List ℕ

-- The two records of a `put`: the new value, and what undoes it.
unfoldable pub append_wal_put :
    LeafSnapshot → List ℕ → List ℕ → Option (List ℕ) → ℕ → WalState → Option WalState
append_wal_put leaf key value undo_value txn s =
    elim (append_put leaf.page key value leaf.lower leaf.upper redo txn s) [
      | none ↦ none
      | some s' ↦ elim undo_value [
        | some prev ↦ append_put leaf.page key prev leaf.lower leaf.upper undo txn s'
        | none ↦ append_tombstone leaf.page key leaf.lower leaf.upper undo txn s'
      ]
    ]

-- The two records of a `delete` of a key that has a value.
unfoldable pub append_wal_delete : LeafSnapshot → List ℕ → List ℕ → ℕ → WalState → Option WalState
append_wal_delete leaf key prev txn s =
    elim (append_tombstone leaf.page key leaf.lower leaf.upper redo txn s) [
      | none ↦ none
      | some s' ↦ append_put leaf.page key prev leaf.lower leaf.upper undo txn s'
    ]
