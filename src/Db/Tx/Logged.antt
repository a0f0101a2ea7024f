-- ===== src/Db/Tx/Logged.antt =====
-- The records of a transaction on one leaf, and what they say of each key when the log is replayed.
use quickstep.Base.{ℕ, ◌≡◌, ◌≢◌, subst, refl, ap, sym, ◌∙◌, arith}
use quickstep.Base.{List, [], ◌∷◌, ◌++◌, append_assoc, true, false, Option, none, some}
use Prim.Native.Nat.{Ordering}
use Ordering.{lt, eq, gt}
use quickstep.Base.Order.{compare_bytes, compare_bytes-eq, compare_bytes_refl}
use quickstep.Wal.Record.{WalRecord, WalOp, EntryKind, redo, undo}
use quickstep.Wal.Manager.Durable.{append_put, append_tombstone}
use WalOp.{put, tombstone}
use quickstep.Wal.Manager.State.{WalState, append_record}
use quickstep.Db.Recovery.{Statuses, is_committed, is_marker, applies}
use quickstep.Db.Recovery.Outcome.{key_state}
use quickstep.Db.Tx.{LeafSnapshot, append_wal_put}
use quickstep.Db.Tx.{append_wal_delete}

abbrev pub leaf_record : LeafSnapshot → List ℕ → EntryKind → ℕ → WalOp → WalRecord
leaf_record leaf key kind txn op = record {
  page_id = leaf.page;
  key = key;
  lower_fence = leaf.lower;
  upper_fence = leaf.upper;
  kind = kind;
  txn_id = txn;
  op = op;
}

-- A `put` or a `delete` that has changed a key, with the value that the code found there before.
pub data Change : Type 0 where
  set : (key value : List ℕ) (prev : Option (List ℕ)) → Change
  unset : (key prev : List ℕ) → Change

abbrev pub key_of : Change → List ℕ
key_of (set key value prev) = key
key_of (unset key prev) = key

abbrev pub new_value : Change → Option (List ℕ)
new_value (set key value prev) = some value
new_value (unset key prev) = none

abbrev pub old_value : Change → Option (List ℕ)
old_value (set key value prev) = prev
old_value (unset key prev) = some prev

-- The value of a key behind the changes, of which the last one counts.
abbrev pub value_after : List ℕ → List Change → Option (List ℕ) → Option (List ℕ)
value_after t [] prior = prior
value_after t (c ∷ cs) prior =
    value_after t cs (elim (compare_bytes t (key_of c)) [ eq ↦ new_value c | _ ↦ prior ])

-- The value of a key before the changes, which the first one of the key has found.
abbrev pub value_before : List ℕ → List Change → Option (List ℕ) → Option (List ℕ)
value_before t [] prior = prior
value_before t (c ∷ cs) prior =
    let rest = value_before t cs prior in
    elim (compare_bytes t (key_of c)) [ eq ↦ old_value c | _ ↦ rest ]

abbrev pub undo_op : Option (List ℕ) → WalOp
undo_op (some prev) = put prev
undo_op none = tombstone

-- What is logged for a change.
abbrev pub logged : LeafSnapshot → ℕ → Change → List WalRecord
logged leaf txn (set key value prev) =
    leaf_record leaf key redo txn (put value) ∷ leaf_record leaf key undo txn (undo_op prev) ∷ []
logged leaf txn (unset key prev) =
    leaf_record leaf key redo txn tombstone ∷ leaf_record leaf key undo txn (put prev) ∷ []

abbrev pub logged_all : LeafSnapshot → ℕ → List Change → List WalRecord
logged_all leaf txn [] = []
logged_all leaf txn (c ∷ cs) = logged leaf txn c ++ logged_all leaf txn cs

pub key_state-append :
    (statuses : Statuses) (t : List ℕ) (rs qs : List WalRecord) (prior : Option (List ℕ))
    → key_state statuses t (rs ++ qs) prior
      ≡ key_state statuses t qs (key_state statuses t rs prior)
key_state-append statuses t [] qs prior = refl
key_state-append statuses t (r ∷ rs) qs prior =
    key_state-append statuses t rs qs (key_state statuses t (r ∷ []) prior)

-- One change of a committed transaction.
redone :
    (statuses : Statuses) (leaf : LeafSnapshot) (txn : ℕ) (c : Change) (t : List ℕ)
    (prior : Option (List ℕ))
    → is_committed txn statuses ≡ true
    → key_state statuses t (logged leaf txn c) prior
      ≡ elim (compare_bytes t (key_of c)) [ eq ↦ new_value c | _ ↦ prior ]
unfolding applies is_marker
redone statuses leaf txn (set key value prev) t prior done = ground (arith, done)
redone statuses leaf txn (unset key prev) t prior done = ground (arith, done)

-- One change of a transaction that has not committed.
undone :
    (statuses : Statuses) (leaf : LeafSnapshot) (txn : ℕ) (c : Change) (t : List ℕ)
    (prior : Option (List ℕ))
    → is_committed txn statuses ≡ false
    → key_state statuses t (logged leaf txn c) prior
      ≡ elim (compare_bytes t (key_of c)) [ eq ↦ old_value c | _ ↦ prior ]
unfolding applies is_marker
undone statuses leaf txn (set key value none) t prior pending = ground (arith, pending)
undone statuses leaf txn (set key value (some prev)) t prior pending = ground (arith, pending)
undone statuses leaf txn (unset key prev) t prior pending = ground (arith, pending)

-- No change is of the key.
abbrev pub IsUntouched : List ℕ → List Change → Type 0
IsUntouched t [] = Unit
IsUntouched t (c ∷ cs) = (compare_bytes t (key_of c) ≢ eq) × IsUntouched t cs

-- No key is changed twice.
abbrev pub IsOnce : List Change → Type 0
IsOnce [] = Unit
IsOnce (c ∷ cs) = IsUntouched (key_of c) cs × IsOnce cs

not_here : (x : Ordering) (a b : Option (List ℕ)) → x ≢ eq → elim x [ eq ↦ a | _ ↦ b ] ≡ b
not_here lt a b other = refl
not_here eq a b other = absurd (other refl)
not_here gt a b other = refl

untouched :
    (statuses : Statuses) (leaf : LeafSnapshot) (txn : ℕ) (cs : List Change) (t : List ℕ)
    (prior : Option (List ℕ))
    → is_committed txn statuses ≡ false
    → IsUntouched t cs
    → key_state statuses t (logged_all leaf txn cs) prior ≡ prior
untouched statuses leaf txn [] t prior pending others = refl
untouched statuses leaf txn (c ∷ cs) t prior pending (other, others) =
    key_state-append statuses t (logged leaf txn c) (logged_all leaf txn cs) prior
    ∙ ap (key_state statuses t (logged_all leaf txn cs)) (
        undone statuses leaf txn c t prior pending
        ∙ not_here (compare_bytes t (key_of c)) (old_value c) prior other)
    ∙ untouched statuses leaf txn cs t prior pending others

-- When the log of a transaction that has committed is replayed, a key has the value from behind it.
pub key_state-committed :
    (statuses : Statuses) (leaf : LeafSnapshot) (txn : ℕ) (cs : List Change) (t : List ℕ)
    (prior : Option (List ℕ))
    → is_committed txn statuses ≡ true
    → key_state statuses t (logged_all leaf txn cs) prior ≡ value_after t cs prior
key_state-committed statuses leaf txn [] t prior done = refl
key_state-committed statuses leaf txn (c ∷ cs) t prior done =
    key_state-append statuses t (logged leaf txn c) (logged_all leaf txn cs) prior
    ∙ key_state-committed statuses leaf txn cs t _ done
    ∙ ap (value_after t cs) (redone statuses leaf txn c t prior done)

-- When the log of a transaction that has not committed is replayed, and it has changed no key twice, a
-- key has the value from before it.
pub key_state-uncommitted :
    (statuses : Statuses) (leaf : LeafSnapshot) (txn : ℕ) (cs : List Change) (t : List ℕ)
    (prior : Option (List ℕ))
    → is_committed txn statuses ≡ false
    → IsOnce cs
    → key_state statuses t (logged_all leaf txn cs) prior ≡ value_before t cs prior
key_state-uncommitted statuses leaf txn [] t prior pending once = refl
key_state-uncommitted statuses leaf txn (c ∷ cs) t prior pending (first, once) =
    let behind = logged_all leaf txn cs in
    key_state-append statuses t (logged leaf txn c) behind prior
    ∙ ap (key_state statuses t behind) (undone statuses leaf txn c t prior pending)
    ∙ rest_of (compare_bytes t (key_of c)) refl
        (key_state-uncommitted statuses leaf txn cs t prior pending once)
  where
    rest_of :
        (x : Ordering)
        → compare_bytes t (key_of c) ≡ x
        → key_state statuses t (logged_all leaf txn cs) prior ≡ value_before t cs prior
        → key_state statuses t (logged_all leaf txn cs) (elim x [ eq ↦ old_value c | _ ↦ prior ])
          ≡ elim x [ eq ↦ old_value c | _ ↦ value_before t cs prior ]
    rest_of lt here rest = rest
    rest_of gt here rest = rest
    rest_of eq here rest =
        untouched statuses leaf txn cs t (old_value c) pending
          (subst (λ k. IsUntouched k cs) (sym (compare_bytes-eq t (key_of c) here)) first)

-- A transaction that puts two values to a key and has not committed leaves the first of them when
-- the log is replayed, and not the value from before: the undo records are applied in the order in
-- which they were written.
pub key_state-put_twice :
    (statuses : Statuses) (leaf : LeafSnapshot) (txn : ℕ) (key first second : List ℕ)
    (prev prior : Option (List ℕ))
    → is_committed txn statuses ≡ false
    → key_state statuses key
        (logged_all leaf txn (set key first prev ∷ set key second (some first) ∷ []))
        prior
      ≡ some first
unfolding applies is_marker
key_state-put_twice statuses leaf txn key first second none prior pending =
    ground (arith, pending, compare_bytes_refl key)
key_state-put_twice statuses leaf txn key first second (some prev) prior pending =
    ground (arith, pending, compare_bytes_refl key)

append_record-records :
    (r : WalRecord) (s s' : WalState)
    → append_record r s ≡ some s'
    → s'.records ≡ s.records ++ (r ∷ [])
unfolding append_record
append_record-records r s s' done = ground (arith, done)

append_two :
    (r q : WalRecord) (s s' : WalState) (first : Option WalState)
    → append_record r s ≡ first
    → elim first [ none ↦ none | some s₁ ↦ append_record q s₁ ] ≡ some s'
    → s'.records ≡ s.records ++ (r ∷ q ∷ [])
append_two r q s s' none here done = ground (arith, done)
append_two r q s s' (some s₁) here done =
    append_record-records q s₁ s' done
    ∙ ap (λ l. l ++ (q ∷ [])) (append_record-records r s s₁ here)
    ∙ append_assoc s.records (r ∷ []) (q ∷ [])

append_wal_put-undo :
    (leaf : LeafSnapshot) (key value : List ℕ) (prev : Option (List ℕ)) (txn : ℕ) (s s' : WalState)
    → append_wal_put leaf key value prev txn s ≡ some s'
    → s'.records
      ≡ s.records
        ++ (leaf_record leaf key redo txn (put value)
            ∷ leaf_record leaf key undo txn (undo_op prev)
            ∷ [])
unfolding append_wal_put append_put append_tombstone
append_wal_put-undo leaf key value (some prev) txn s s' done = append_two _ _ s s' _ refl done
append_wal_put-undo leaf key value none txn s s' done = append_two _ _ s s' _ refl done

-- Where the log takes them, a `put` appends the records of its change.
pub append_wal_put-logged :
    (leaf : LeafSnapshot) (key value : List ℕ) (prev : Option (List ℕ)) (txn : ℕ) (s s' : WalState)
    → append_wal_put leaf key value prev txn s ≡ some s'
    → s'.records ≡ s.records ++ logged leaf txn (set key value prev)
append_wal_put-logged leaf key value prev txn s s' done =
    append_wal_put-undo leaf key value prev txn s s' done

-- Where the log takes them, a `delete` that has found a value appends the records of its change.
pub append_wal_delete-logged :
    (leaf : LeafSnapshot) (key prev : List ℕ) (txn : ℕ) (s s' : WalState)
    → append_wal_delete leaf key prev txn s ≡ some s'
    → s'.records ≡ s.records ++ logged leaf txn (unset key prev)
unfolding append_wal_delete append_put append_tombstone
append_wal_delete-logged leaf key prev txn s s' done = append_two _ _ s s' _ refl done
