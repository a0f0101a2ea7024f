-- ===== src/Db/Tx/Restored.antt =====
-- A transaction on one leaf, whose log is replayed over that leaf after a crash.
use quickstep.Base.{ℕ, ◌≡◌, inl, inr, ap, sym, ◌∙◌, List, [], ◌∷◌, ◌++◌, true, false}
use quickstep.Base.{Option, some, All, arith}
use quickstep.Base.Bytes.{IsByte}
use quickstep.MapTable.Entry.{leaf_ref}
use quickstep.Wal.Manager.State.{WalState}
use quickstep.Node.{Node, get_node_prefix}
use quickstep.Node.Search.Lookup.{value_of}
use quickstep.PageOp.Access.{set_node}
use quickstep.Db.{Db}
use quickstep.Db.Recovery.{Statuses, is_committed, replay_leaf}
use quickstep.Db.Recovery.Outcome.{key_state}
use quickstep.Db.Recovery.Page.{IsReplayable, IsReplayed, leaf_state, replay_leaf-IsReplayed}
use quickstep.Db.Tx.{LeafSnapshot}
use quickstep.Db.Tx.Logged.{Change, set, value_after, value_before, logged_all, IsOnce}
use quickstep.Db.Tx.Logged.{key_state-committed, key_state-uncommitted, key_state-put_twice}
use quickstep.Db.Tx.Changes.{log_changes, log_changes-logged_all}

IsReplayed-same :
    (addr : ℕ) (db : Db) (f g : List ℕ → Option (List ℕ)) (result : Option Db)
    → ((t : List ℕ) → f t ≡ g t)
    → IsReplayed addr db f result
    → IsReplayed addr db g result
IsReplayed-same addr db f g result same (inl (n', replays, node, bounds, values)) =
    inl (n', replays, node, bounds, λ t ht. values t ht ∙ same t)
IsReplayed-same addr db f g result same (inr (stays, nothing)) =
    inr (stays, λ t ht. sym (same t) ∙ nothing t ht)

module _ (statuses : Statuses) (snapshot : LeafSnapshot) (txn addr : ℕ) (db : Db) (s s' : WalState)
    (empty : s.records ≡ []) where
  -- What the log says of a key is what the changes have logged.
  same_state :
      (cs : List Change) (key : List ℕ) (prior : Option (List ℕ))
      → log_changes snapshot txn cs s ≡ some s'
      → key_state statuses key s'.records prior
        ≡ key_state statuses key (logged_all snapshot txn cs) prior
  same_state cs key prior logs =
      ap (λ rs. key_state statuses key rs prior)
        (log_changes-logged_all snapshot txn cs s s' logs
          ∙ ap (λ l. l ++ logged_all snapshot txn cs) empty)

  module _ (fits : IsReplayable statuses s'.records (db.disk addr)) where
    -- A transaction that has committed has logged changes of a leaf, which are all that the log holds.
    -- The records show the fences that the leaf has on disk, and what it holds by the log fits it.
    -- Replayed over the leaf, they give it the same fences and each key its value from behind the
    -- last change of that key, or the value on disk if none is of the key. Only if this leaves no key
    -- a value, the leaf stays as it is on disk.
    pub replay_leaf-committed :
        (cs : List Change)
        → log_changes snapshot txn cs s ≡ some s'
        → is_committed txn statuses ≡ true
        → IsReplayed addr db
            (λ t. value_after (get_node_prefix (db.disk addr) ++ t) cs (value_of (db.disk addr) t))
            (replay_leaf statuses (leaf_ref addr) s'.records db)
    replay_leaf-committed cs logs done =
        IsReplayed-same addr db _ _ _
          (λ t.
            same_state cs _ _ logs
            ∙ key_state-committed statuses snapshot txn cs (get_node_prefix (db.disk addr) ++ t)
                (value_of (db.disk addr) t) done)
          (replay_leaf-IsReplayed statuses s'.records addr db fits)

    -- A transaction that has not committed has logged changes of a leaf, none of a key twice, which
    -- are all that the log holds. The records show the fences that the leaf has on disk, and what it
    -- holds by the log fits it. Replayed over the leaf, they give it the same fences and each key that
    -- was changed the value that the code found there before, and the others the value on disk.
    -- Only if this leaves no key a value, the leaf stays as it is on disk.
    pub replay_leaf-uncommitted :
        (cs : List Change)
        → log_changes snapshot txn cs s ≡ some s'
        → is_committed txn statuses ≡ false
        → IsOnce cs
        → IsReplayed addr db
            (λ t. value_before (get_node_prefix (db.disk addr) ++ t) cs (value_of (db.disk addr) t))
            (replay_leaf statuses (leaf_ref addr) s'.records db)
    replay_leaf-uncommitted cs logs pending once =
        IsReplayed-same addr db _ _ _
          (λ t.
            same_state cs _ _ logs
            ∙ key_state-uncommitted statuses snapshot txn cs (get_node_prefix (db.disk addr) ++ t)
                (value_of (db.disk addr) t) pending once)
          (replay_leaf-IsReplayed statuses s'.records addr db fits)

    -- A transaction that has not committed has put two values to a key of a leaf, and found the first
    -- one there when it put the second; that is all that the log holds. The records show the fences
    -- that the leaf has on disk, and what it holds by the log fits it. Replayed over the leaf, they
    -- leave the first of the two values, whatever the key had before the transaction or on disk.
    pub replay_leaf-put_twice :
        (t first second : List ℕ) (prev : Option (List ℕ))
        → All IsByte t
        → log_changes snapshot txn
            (set (get_node_prefix (db.disk addr) ++ t) first prev
              ∷ set (get_node_prefix (db.disk addr) ++ t) second (some first)
              ∷ [])
            s
          ≡ some s'
        → is_committed txn statuses ≡ false
        → (n' : Node) × (replay_leaf statuses (leaf_ref addr) s'.records db
            ≡ some (record db { disk = set_node db.disk addr n' }))
          × (value_of n' t ≡ some first)
    replay_leaf-put_twice t first second prev ht logs pending =
        let key = get_node_prefix (db.disk addr) ++ t in
        let cs : List Change = set key first prev ∷ set key second (some first) ∷ [] in
        let stays : leaf_state statuses s'.records (db.disk addr) t ≡ some first =
          same_state cs key _ logs
          ∙ key_state-put_twice statuses snapshot txn key first second prev _ pending in
        elim (replay_leaf-IsReplayed statuses s'.records addr db fits) [
          | inl (n', replays, node, bounds, values) ↦ (n', replays, values t ht ∙ stays)
          | inr (same, nothing) ↦ absurd (ground (arith, stays, nothing t ht))
        ]
