-- ===== src/BTree/Tree/Examples.antt =====
-- Trees on concrete nodes.
use quickstep.Base.{
  ℕ, zero, suc, ◌+◌, ◌-◌, ◌*◌, ◌^◌, sym, ◌≡◌, ◌⊎◌, inl, refl, arith, List, [], ◌∷◌, true, false,
}
use quickstep.Base.{length, replicate, All}
use Prim.Native.Nat.{Ordering}
use Ordering.{lt}
use quickstep.Base.Order.{compare_bytes}
use quickstep.BTree.{BpNode, blank, is_locked_or_obsolete}
use quickstep.BTree.Append.{bp_done}
use quickstep.BTree.Rebuild.{leaf_child, reset_parent, insert_leaf_entry_after_child}
use quickstep.BTree.Rebuild.Entries.{Pivots, cost, IsHolding, IsPivot, append_all-IsHolding}
use quickstep.BTree.Rebuild.Entries.{reset_parent-IsHolding}
use quickstep.BTree.Rebuild.Inserted.{IsBehind, insert_leaf_entry_after_child-IsHolding}
use quickstep.BTree.Tree.{BpTree, tree_done, tree_failed, tree_panic, in_node, promote_leaf_root}
use quickstep.BTree.Tree.{split_inner_node}
use quickstep.BTree.Append.{BpError}
use BpError.{parent_child_missing}
use quickstep.BTree.Tree.Split.{IsSplit, split_inner_node-IsSplit}
use quickstep.BTree.Tree.Traverse.{read_traverse_leaf}
use quickstep.BTree.Tree.Promoted.{IsReached, quiet, promote_leaf_root-IsReached}
use quickstep.BTree.Tree.Parents.{insert_into_parents_after_leaf_split}
use quickstep.BTree.Tree.Parents.Full.{insert_into_parents_stuck}
use quickstep.BTree.Tree.Versions.{
  Cell, Step, Steps, take_lock, here, next, leave_lock, check_version,
}
use quickstep.BTree.Tree.Versions.{upgrade_version, drop_lock, check_version-Step}

-- A tree with memory of zeros for four nodes, whose root is a leaf.
abbrev small_tree : BpTree
small_tree = record {
  slab = λ i. blank;
  vlocks = λ i. 0;
  cap = 4;
  root = 0;
  root_vlock = 0;
  next_free = 1;
  free_list = 2 ^ 32 - 1;
}

promote_leaf_root-IsReached_example :
    (t' : BpTree) × (promote_leaf_root 0 7 (5 ∷ []) small_tree ≡ tree_done tt t')
    × ((v : ℕ) (key : List ℕ)
        → is_locked_or_obsolete v ≡ false
        → IsReached
            (read_traverse_leaf key (quiet (record t' { root_vlock = v })))
            (elim (compare_bytes key (5 ∷ [])) [ lt ↦ 0 | _ ↦ 7 ]))
promote_leaf_root-IsReached_example =
    promote_leaf_root-IsReached small_tree 0 7 (5 ∷ []) (omega arith) (omega arith) (omega arith)
      (omega arith)

abbrev long_key : List ℕ
long_key = replicate 64 7

abbrev many : Pivots
many = replicate 55 (long_key, 9)

All_replicate : (n : ℕ) (e : List ℕ × ℕ) → IsPivot e → All IsPivot (replicate n e)
All_replicate zero e h = tt
All_replicate (suc n) e h = (h, All_replicate n e h)

cost-replicate :
    (n : ℕ) (key : List ℕ) (child : ℕ) → cost (replicate n (key, child)) ≡ n * (length key + 10)
cost-replicate zero key child = omega arith
cost-replicate (suc n) key child = grind (arith, cost-replicate n key child)

long-IsPivot : IsPivot (long_key, 9)
long-IsPivot = (omega arith, omega arith)

filled : (n : BpNode) × IsHolding n many × (n.lowest ≡ 3)
unfolding reset_parent
filled =
    let (n, done, h, low) =
      append_all-IsHolding many (reset_parent 3 blank) [] (reset_parent-IsHolding 3 blank)
        (All_replicate 55 (long_key, 9) long-IsPivot)
        (omega (arith, cost-replicate 55 long_key 9)) in
    (n, h, low)

insert_leaf_entry_after_child-IsHolding_example :
    (n' : BpNode) × (insert_leaf_entry_after_child 3 (5 ∷ []) 8 (reset_parent 3 blank) ≡ bp_done n')
    × IsHolding n' ((5 ∷ [], 8) ∷ [])
    × (n'.lowest ≡ 3)
unfolding reset_parent
insert_leaf_entry_after_child-IsHolding_example =
    insert_leaf_entry_after_child-IsHolding (reset_parent 3 blank) []
      (reset_parent-IsHolding 3 blank) 3 (5 ∷ []) 8 ((5 ∷ [], 8) ∷ []) (inl (refl, refl))
      ((omega arith, omega arith), tt) (omega arith)

-- Two nodes of four are used, and the root is one that holds 55 pivots of 64 bytes.
abbrev full_tree : BpTree
full_tree = record small_tree { slab = λ i. filled.0; next_free = 2 }

abbrev too_many : Pivots
too_many = (5 ∷ [], 8) ∷ many

place : IsBehind filled.0.lowest 3 (5 ∷ [], 8) many too_many
place = inl (sym filled.2, refl)

too_many-IsPivot : All IsPivot too_many
too_many-IsPivot = ((omega arith, omega arith), All_replicate 55 (long_key, 9) long-IsPivot)

split_inner_node-IsSplit_example :
    (t' : BpTree) × (s : IsSplit full_tree 1 too_many t') × (split_inner_node 1 1
        (leaf_child 3)
        (5 ∷ [])
        (leaf_child 8)
        full_tree
      ≡ tree_done (record { pivot_key = s.pivot; right_node = 2 }) t')
split_inner_node-IsSplit_example =
    split_inner_node-IsSplit full_tree 1 3 (5 ∷ []) 8 many too_many filled.1 place too_many-IsPivot
      (omega arith) (omega arith) (omega arith) (omega (arith, cost-replicate 55 long_key 9))

insert_into_parents_stuck_example :
    (insert_into_parents_after_leaf_split
        (record { root_lock = true; chain = record { level = 1; node = 1 } ∷ [] })
        3
        (5 ∷ [])
        8
        full_tree
      ≡ tree_panic)
    ⊎ ((t' : BpTree) × (insert_into_parents_after_leaf_split
            (record { root_lock = true; chain = record { level = 1; node = 1 } ∷ [] })
            3
            (5 ∷ [])
            8
            full_tree
          ≡ tree_failed (in_node parent_child_missing) t'))
insert_into_parents_stuck_example =
    insert_into_parents_stuck full_tree 1 3 (5 ∷ []) 8 many too_many filled.1 place too_many-IsPivot
      (omega arith, omega arith) (omega (arith, cost-replicate 55 long_key 9)) (omega arith)
      (omega arith) (omega arith)

abbrev unlocked_cell : Cell
unlocked_cell = record { vlock = 4; node = blank }

abbrev locked_cell : Cell
locked_cell = record { vlock = 6; node = blank }

taken : Step unlocked_cell locked_cell
unfolding is_locked_or_obsolete upgrade_version
taken = take_lock false 4 refl refl refl

left_again : Steps locked_cell (record { vlock = 8; node = blank })
unfolding is_locked_or_obsolete drop_lock
left_again = next here (leave_lock refl refl refl)

check_version-Step_example : check_version 4 8 ≡ false
unfolding is_locked_or_obsolete taken left_again
check_version-Step_example =
    check_version-Step {c = unlocked_cell} here taken left_again refl (omega arith) (omega arith)
