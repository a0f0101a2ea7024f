-- ===== src/Db/Tx/Changes.antt =====
-- A transaction that makes several changes of one leaf: the records that it appends to the log.
use quickstep.Base.{ℕ, ◌≡◌, refl, ap, ◌∙◌, arith}
use quickstep.Base.{List, [], ◌∷◌, ◌++◌, append-nil, append_assoc, Option, none, some}
use quickstep.Wal.Manager.State.{WalState}
use quickstep.Db.Tx.{LeafSnapshot, append_wal_put, append_wal_delete}
use quickstep.Db.Tx.Logged.{Change, set, unset, logged, logged_all}
use quickstep.Db.Tx.Logged.{append_wal_put-logged, append_wal_delete-logged}

-- What a `put` or a `delete` that has changed a key does with the log.
abbrev pub log_change : LeafSnapshot → ℕ → Change → WalState → Option WalState
log_change leaf txn (set key value prev) s = append_wal_put leaf key value prev txn s
log_change leaf txn (unset key prev) s = append_wal_delete leaf key prev txn s

-- The changes of one leaf by a transaction, one after the other.
abbrev pub log_changes : LeafSnapshot → ℕ → List Change → WalState → Option WalState
log_changes leaf txn [] s = some s
log_changes leaf txn (c ∷ cs) s = elim (log_change leaf txn c s) [
  | none ↦ none
  | some s' ↦ log_changes leaf txn cs s'
]

log_change-logged :
    (leaf : LeafSnapshot) (txn : ℕ) (c : Change) (s s' : WalState)
    → log_change leaf txn c s ≡ some s'
    → s'.records ≡ s.records ++ logged leaf txn c
log_change-logged leaf txn (set key value prev) s s' done =
    append_wal_put-logged leaf key value prev txn s s' done
log_change-logged leaf txn (unset key prev) s s' done =
    append_wal_delete-logged leaf key prev txn s s' done

-- Where the log takes them, the changes append their records.
pub log_changes-logged_all :
    (leaf : LeafSnapshot) (txn : ℕ) (cs : List Change) (s s' : WalState)
    → log_changes leaf txn cs s ≡ some s'
    → s'.records ≡ s.records ++ logged_all leaf txn cs
log_changes-logged_all leaf txn [] s s' done = ground (arith, done, append-nil s.records)
log_changes-logged_all leaf txn (c ∷ cs) s s' done =
    behind (log_change leaf txn c s) (log_change-logged leaf txn c s)
      (λ s₁. log_changes-logged_all leaf txn cs s₁ s') done
  where
    behind :
        (first : Option WalState)
        → ((s₁ : WalState) → first ≡ some s₁ → s₁.records ≡ s.records ++ logged leaf txn c)
        → ((s₁ : WalState)
            → log_changes leaf txn cs s₁ ≡ some s'
            → s'.records ≡ s₁.records ++ logged_all leaf txn cs)
        → elim first [ none ↦ none | some s₁ ↦ log_changes leaf txn cs s₁ ] ≡ some s'
        → s'.records ≡ s.records ++ logged_all leaf txn (c ∷ cs)
    behind none here later rest = absurd (ground (arith, rest))
    behind (some s₁) here later rest =
        later s₁ rest
        ∙ ap (λ l. l ++ logged_all leaf txn cs) (here s₁ refl)
        ∙ append_assoc s.records (logged leaf txn c) (logged_all leaf txn cs)
