-- ===== src/Db/Tx/Examples.antt =====
-- Transactions on a concrete leaf.
use quickstep.Base.{◌≡◌, refl, sym, subst, ap}
use quickstep.Base.{List, [], ◌∷◌, ◌++◌, Option, none, some}
use quickstep.Base.Order.{compare_bytes}
use quickstep.MapTable.Entry.{leaf_ref}
use quickstep.Wal.Manager.State.{WalState, append_record, checked_add}
use quickstep.Wal.Manager.Durable.{append_put, append_tombstone}
use quickstep.Wal.Codec.{write_group, write_payloads, write_record_payload}
use quickstep.Wal.Manager.Open.{opened}
use quickstep.Node.{Node, get_node_prefix, common_prefix}
use quickstep.Node.Search.Lookup.{value_of}
use quickstep.Node.Examples.{fences, key}
use quickstep.PageOp.Access.{set_node}
use quickstep.Db.Recovery.{Statuses, committed, replay_leaf, replay_records, applies, is_marker}
use quickstep.Db.Recovery.{is_committed, status_of, apply_wal_op, insert, remove}
use quickstep.Db.Recovery.Page.{IsReplayable, IsFenced, IsReplayed}
use quickstep.Db.Recovery.Examples.{fences_db, fences_bounds, five_entry-IsReplayable}
use quickstep.Db.Recovery.Examples.{five_entry, nothing}
use quickstep.Db.Tx.{LeafSnapshot, append_wal_put, append_wal_delete}
use quickstep.Db.Tx.Logged.{Change, set, unset, value_after, value_before, logged_all}
use quickstep.Db.Tx.Changes.{log_changes, log_changes-logged_all}
use quickstep.Db.Tx.Restored.{replay_leaf-committed, replay_leaf-uncommitted, replay_leaf-put_twice}

abbrev snapshot : LeafSnapshot
snapshot = record { page = 0; lower = 0 ∷ []; upper = 255 ∷ [] }

abbrev empty_log : WalState
empty_log = opened 32 []

abbrev taken : Option WalState → WalState
taken none = empty_log
taken (some s) = s

abbrev put_five : List Change
put_five = set (5 ∷ []) (7 ∷ []) none ∷ []

abbrev delete_five : List Change
delete_five = unset (5 ∷ []) (7 ∷ []) ∷ []

abbrev after : List Change → WalState
after cs = taken (log_changes snapshot 1 cs empty_log)

abbrev put_twice : List Change
put_twice = set (5 ∷ []) (7 ∷ []) none ∷ set (5 ∷ []) (8 ∷ []) (some (7 ∷ [])) ∷ []

put_logs : log_changes snapshot 1 put_five empty_log ≡ some (after put_five)
unfolding append_wal_put append_put append_tombstone append_record write_group checked_add
    write_payloads write_record_payload
put_logs = refl

delete_logs : log_changes snapshot 1 delete_five empty_log ≡ some (after delete_five)
unfolding append_wal_delete append_put append_tombstone append_record write_group checked_add
    write_payloads write_record_payload
delete_logs = refl

twice_logs : log_changes snapshot 1 put_twice empty_log ≡ some (after put_twice)
unfolding append_wal_put append_put append_tombstone append_record write_group checked_add
    write_payloads write_record_payload
twice_logs = refl

replayable :
    (statuses : Statuses) (cs : List Change)
    → log_changes snapshot 1 cs empty_log ≡ some (after cs)
    → IsFenced (0 ∷ [], 255 ∷ []) (logged_all snapshot 1 cs)
    → (replay_records statuses (logged_all snapshot 1 cs) nothing).entries ≡ five_entry
    → IsReplayable statuses (after cs).records fences
replayable statuses cs logs fenced left =
    subst (λ rs. IsReplayable statuses rs fences)
      (sym (log_changes-logged_all snapshot 1 cs empty_log (after cs) logs))
      (five_entry-IsReplayable statuses (logged_all snapshot 1 cs) fenced left)

abbrev one_commit : Statuses
one_commit = (1, committed) ∷ []

put_left : (replay_records one_commit (logged_all snapshot 1 put_five) nothing).entries ≡ five_entry
unfolding replay_records applies is_marker is_committed status_of apply_wal_op insert remove
    compare_bytes
put_left = refl

delete_left : (replay_records [] (logged_all snapshot 1 delete_five) nothing).entries ≡ five_entry
unfolding replay_records applies is_marker is_committed status_of apply_wal_op insert remove
    compare_bytes
delete_left = refl

twice_left : (replay_records [] (logged_all snapshot 1 put_twice) nothing).entries ≡ five_entry
unfolding replay_records applies is_marker is_committed status_of apply_wal_op insert remove
    compare_bytes
twice_left = refl

no_prefix : get_node_prefix fences ≡ []
unfolding get_node_prefix common_prefix
no_prefix = ap (λ b. common_prefix b.0 b.1) fences_bounds

replay_leaf-committed_example :
    IsReplayed 2 fences_db
      (λ t. value_after (get_node_prefix fences ++ t) put_five (value_of fences t))
      (replay_leaf one_commit (leaf_ref 2) (after put_five).records fences_db)
unfolding status_of is_committed
replay_leaf-committed_example =
    replay_leaf-committed one_commit snapshot 1 2 fences_db empty_log (after put_five) refl
      (replayable one_commit put_five put_logs (refl, (refl, tt)) put_left) put_five put_logs refl

replay_leaf-uncommitted_example :
    IsReplayed 2 fences_db
      (λ t. value_before (get_node_prefix fences ++ t) delete_five (value_of fences t))
      (replay_leaf [] (leaf_ref 2) (after delete_five).records fences_db)
unfolding status_of is_committed
replay_leaf-uncommitted_example =
    replay_leaf-uncommitted [] snapshot 1 2 fences_db empty_log (after delete_five) refl
      (replayable [] delete_five delete_logs (refl, (refl, tt)) delete_left) delete_five delete_logs
      refl (tt, tt)

replay_leaf-put_twice_example :
    (n' : Node) × (replay_leaf [] (leaf_ref 2) (after put_twice).records fences_db
      ≡ some (record fences_db { disk = set_node (λ addr. fences) 2 n' }))
    × (value_of n' (5 ∷ []) ≡ some (7 ∷ []))
unfolding status_of is_committed
replay_leaf-put_twice_example =
    replay_leaf-put_twice [] snapshot 1 2 fences_db empty_log (after put_twice) refl
      (replayable [] put_twice twice_logs (refl, (refl, (refl, (refl, tt)))) twice_left) (5 ∷ [])
      (7 ∷ []) (8 ∷ []) none key
      (subst
        (λ p.
          log_changes snapshot 1
            (set (p ++ (5 ∷ [])) (7 ∷ []) none ∷ set (p ++ (5 ∷ [])) (8 ∷ []) (some (7 ∷ [])) ∷ [])
            empty_log
          ≡ some (after put_twice))
        (sym no_prefix) twice_logs)
      refl
