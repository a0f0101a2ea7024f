-- ===== src/BTree/Tree/Parents.antt =====
-- src/lib.rs: the parents of a leaf that has been split, or merged with its right neighbour.
pub mod Full
use quickstep.Base.{ℕ, List, [], ◌∷◌, Option, none, some, Bool, true, false}
use quickstep.BTree.Append.{BpError}
use BpError.{key_too_large, node_full, parent_child_missing}
use quickstep.BTree.Rebuild.{ChildPointer, leaf_child, inner_child, insert_entry_after_child}
use quickstep.BTree.Tree.{
  BpTree, TreeError, TreeResult, tree_done, tree_failed, tree_panic, in_node,
}
use quickstep.BTree.Tree.{
  tree_full, in_slab, promote_leaf_root, promote_inner_root, split_inner_node,
}
use quickstep.BTree.Tree.{remove_child_after_merge, demote_root_after_merge, InnerSplitPropagation}

-- A node that is locked, with its level.
pub record LockedInner : Type 0 where
  pub level : ℕ
  pub node : ℕ

-- The lock of the root, if it is held, and the nodes from the last one of `chain` up.
pub record WriteLockBundle : Type 0 where
  pub root_lock : Bool
  pub chain : List LockedInner

pub record PendingParentSplit : Type 0 where
  pub left_child : ChildPointer
  pub pivot_key : List ℕ
  pub right_child : ChildPointer
  pub child_level : ℕ

-- `as_inner` panics on a leaf, and a root lock that is missing on `expect`.
unfoldable pub promote_pending : Bool → PendingParentSplit → BpTree → TreeResult (Unit {0})
promote_pending false pending t = tree_panic
promote_pending true pending t = elim pending.left_child [
  | leaf_child page ↦ tree_panic
  | inner_child left ↦ elim pending.right_child [
    | leaf_child page ↦ tree_panic
    | inner_child right ↦ promote_inner_root left right pending.pivot_key pending.child_level t
  ]
]

-- An insertion, and what is asked for if the node is full.
unfoldable pub insert_or :
    LockedInner
    → PendingParentSplit
    → (BpTree → TreeResult (Unit {0}))
    → BpTree
    → TreeResult (Unit {0})
insert_or locked pending when_full t =
    elim (in_slab locked.node t (
      insert_entry_after_child locked.level pending.left_child pending.pivot_key pending.right_child
        (t.slab locked.node))) [
          | tree_done u t₁ ↦ tree_done tt t₁
          | tree_panic ↦ tree_panic
          | tree_failed e t₁ ↦ elim e [
            | tree_full ↦ tree_failed tree_full t₁
            | in_node b ↦ elim b [
              | node_full ↦ when_full t₁
              | key_too_large ↦ tree_failed (in_node key_too_large) t₁
              | parent_child_missing ↦ tree_failed (in_node parent_child_missing) t₁
            ]
          ]
        ]

-- What goes up when a node has been split.
abbrev pub pending_of : LockedInner → InnerSplitPropagation → PendingParentSplit
pending_of locked split = record {
  left_child = inner_child locked.node;
  pivot_key = split.pivot_key;
  right_child = inner_child split.right_node;
  child_level = locked.level;
}

-- The split of a full node, and what goes on with what goes up.
unfoldable pub split_and :
    LockedInner
    → PendingParentSplit
    → (PendingParentSplit → BpTree → TreeResult (Unit {0}))
    → BpTree
    → TreeResult (Unit {0})
split_and locked pending go_on t =
    elim (split_inner_node locked.node locked.level pending.left_child pending.pivot_key
      pending.right_child t) [
        | tree_failed e t₁ ↦ tree_failed e t₁
        | tree_panic ↦ tree_panic
        | tree_done split t₁ ↦ go_on (pending_of locked split) t₁
      ]

-- `above` are the nodes from `idx - 1` up.
unfoldable pub bubble_split_up :
    Bool → List LockedInner → PendingParentSplit → BpTree → TreeResult (Unit {0})
bubble_split_up root_lock [] pending t = promote_pending root_lock pending t
bubble_split_up root_lock (locked ∷ above) pending t =
    insert_or locked pending (split_and locked pending (bubble_split_up root_lock above)) t

unfoldable pub insert_into_parents_after_leaf_split :
    WriteLockBundle → ℕ → List ℕ → ℕ → BpTree → TreeResult (Unit {0})
insert_into_parents_after_leaf_split bundle left_leaf pivot_key right_leaf t = elim bundle.chain [
  | [] ↦ elim bundle.root_lock [
    | true ↦ promote_leaf_root left_leaf right_leaf pivot_key t
    | false ↦ tree_panic
  ]
  | ◌∷◌ locked above ↦
      let pending : PendingParentSplit = record {
        left_child = leaf_child left_leaf;
        pivot_key = pivot_key;
        right_child = leaf_child right_leaf;
        child_level = 0;
      } in
      insert_or locked pending (split_and locked pending (bubble_split_up bundle.root_lock above)) t
]

unfoldable pub demote_locked_root : Bool → ChildPointer → ℕ → BpTree → TreeResult (Unit {0})
demote_locked_root true child level t = demote_root_after_merge child level t
demote_locked_root false child level t = tree_done tt t

-- The loop up the chain, for a child that is the only one of its node.
unfoldable pub remove_up :
    Bool → List LockedInner → ChildPointer → ℕ → BpTree → TreeResult (Unit {0})
remove_up root_lock [] child level t = demote_locked_root root_lock child level t
remove_up root_lock (locked ∷ above) child level t =
    elim (remove_child_after_merge locked.node locked.level child (inner_child locked.node) t) [
      | tree_failed e t₁ ↦ tree_failed e t₁
      | tree_panic ↦ tree_panic
      | tree_done demotion t₁ ↦ elim demotion [
        | none ↦ tree_done tt t₁
        | some child_ptr ↦ remove_up root_lock above child_ptr locked.level t₁
      ]
    ]

unfoldable pub remove_parent_after_merge : WriteLockBundle → ℕ → ℕ → BpTree → TreeResult (Unit {0})
remove_parent_after_merge bundle survivor removed t = elim bundle.chain [
  | [] ↦ tree_done tt t
  | ◌∷◌ locked above ↦
      elim (remove_child_after_merge locked.node locked.level (leaf_child survivor)
        (leaf_child removed) t) [
          | tree_failed e t₁ ↦ tree_failed e t₁
          | tree_panic ↦ tree_panic
          | tree_done demote t₁ ↦ elim demote [
            | none ↦ tree_done tt t₁
            | some child ↦ remove_up bundle.root_lock above child locked.level t₁
          ]
        ]
]
