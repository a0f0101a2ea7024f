-- ===== src/BTree/Tree/Locks.antt =====
-- Write locks on a path of nodes, while no other thread runs: from a node, or from the root, down to
-- the parent of the leaf.
pub mod Path
pub mod Held
mod Examples
use quickstep.Base.{
  ℕ, zero, suc, ◌+◌, List, [], ◌∷◌, Option, none, some, Bool, true, false, ◌==◌, if◌then◌else◌,
}
use quickstep.MapTable.Loops.{spin_retries}
use quickstep.BTree.Search.{search_for_inner}
use quickstep.BTree.Tree.{BpTree, root_leaf, root_inner, get_root}
use quickstep.BTree.Tree.Traverse.{read_root, read_inner, WriteLockPoint, at_root, at_inner}
use quickstep.BTree.Tree.Traverse.{reached, restart, traverse_panic, try_read_traverse_leaf}
use quickstep.BTree.Tree.Versions.{upgrade_version, drop_lock}
use quickstep.BTree.Tree.Parents.{LockedInner, WriteLockBundle}

pub data OpType : Type 0 where
  split merge : OpType

-- `BPRestart` with the tree as it is left.
pub data LockResult : Type 0 where
  locked : WriteLockBundle → BpTree → LockResult
  lock_restart : BpTree → LockResult
  lock_panic : LockResult

unfoldable pub set_vlock : ℕ → ℕ → BpTree → BpTree
set_vlock id vlock t = record t { vlocks = λ i. if i == id then vlock else t.vlocks i }

unfoldable pub upgrade_root : Bool → ℕ → BpTree → Option BpTree
upgrade_root weak version t = elim (upgrade_version weak version t.root_vlock) [
  | none ↦ none
  | some vlock ↦ some (record t { root_vlock = vlock })
]

unfoldable pub upgrade_inner : Bool → ℕ → ℕ → BpTree → Option BpTree
upgrade_inner weak version id t = elim (upgrade_version weak version (t.vlocks id)) [
  | none ↦ none
  | some vlock ↦ some (set_vlock id vlock t)
]

unfoldable pub write_inner : Bool → ℕ → BpTree → Option BpTree
write_inner weak id t = elim (read_inner id t) [
  | none ↦ none
  | some version ↦ upgrade_inner weak version id t
]

-- The guards are dropped.
unfoldable pub drop_chain : List LockedInner → BpTree → BpTree
drop_chain [] t = t
drop_chain (l ∷ ls) t = drop_chain ls (set_vlock l.node (drop_lock (t.vlocks l.node)) t)

unfoldable pub drop_bundle : WriteLockBundle → BpTree → BpTree
drop_bundle bundle t =
    drop_chain bundle.chain
      (if bundle.root_lock then record t { root_vlock = drop_lock t.root_vlock } else t)

-- The `while`, with the level of the node that was locked last; `chain` has the nodes above it.
-- `weak l` is the failure of the exchange at level `l`, and `weak 0` of that at the root.
unfoldable pub lock_down :
    (ℕ → Bool) → ℕ → ℕ → List ℕ → Bool → List LockedInner → BpTree → LockResult
lock_down weak zero id key root_lock chain t =
    locked (record { root_lock = root_lock; chain = record { level = 0; node = id } ∷ chain }) t
lock_down weak (suc zero) id key root_lock chain t =
    locked (record { root_lock = root_lock; chain = record { level = 1; node = id } ∷ chain }) t
lock_down weak (suc (suc level)) id key root_lock chain t =
    let chain' : List LockedInner = record { level = suc (suc level); node = id } ∷ chain in
    elim (search_for_inner (t.slab id) key) [
      | none ↦ lock_panic
      | some child ↦ elim (write_inner (weak (suc level)) child t) [
        | none ↦ lock_restart (drop_bundle (record { root_lock = root_lock; chain = chain' }) t)
        | some t₁ ↦ lock_down weak (suc level) child key root_lock chain' t₁
      ]
    ]

unfoldable pub lock_from_point : (ℕ → Bool) → WriteLockPoint → List ℕ → BpTree → LockResult
lock_from_point weak (at_inner version node level) key t =
    elim (upgrade_inner (weak level) version node t) [
      | none ↦ lock_restart t
      | some t₁ ↦ lock_down weak level node key false [] t₁
    ]
lock_from_point weak at_root key t = elim (read_root t) [
  | none ↦ lock_restart t
  | some version ↦ elim (upgrade_root (weak 0) version t) [
    | none ↦ lock_restart t
    | some t₁ ↦ elim (get_root t₁) [
      | root_leaf page ↦ locked (record { root_lock = true; chain = [] }) t₁
      | root_inner level node ↦ elim (write_inner (weak level) node t₁) [
        | none ↦ lock_restart (drop_bundle (record { root_lock = true; chain = [] }) t₁)
        | some t₂ ↦ lock_down weak level node key true [] t₂
      ]
    ]
  ]
]

-- One more traversal, and the locks from where it says.
unfoldable pub lock_again : (ℕ → Bool) → OpType → List ℕ → BpTree → LockResult
lock_again weak op_type key t = elim (try_read_traverse_leaf key (λ i. t)) [
  | restart ↦ lock_restart t
  | traverse_panic ↦ lock_panic
  | reached res ↦ elim op_type [
    | split ↦ lock_from_point weak res.overflow_point key t
    | merge ↦ lock_from_point weak res.underflow_point key t
  ]
]

-- The retries; `weak` has what fails in each attempt.
unfoldable pub lock_loop : (ℕ → ℕ → Bool) → ℕ → ℕ → OpType → List ℕ → LockResult → LockResult
lock_loop weak attempt n op_type key (locked bundle t) = locked bundle t
lock_loop weak attempt n op_type key lock_panic = lock_panic
lock_loop weak attempt zero op_type key (lock_restart t) = lock_restart t
lock_loop weak attempt (suc n) op_type key (lock_restart t) =
    lock_loop weak (attempt + 1) n op_type key (lock_again (weak attempt) op_type key t)

-- `lock_restart` is `OLCRetriesExceeded`.
unfoldable pub write_lock : (ℕ → ℕ → Bool) → WriteLockPoint → OpType → List ℕ → BpTree → LockResult
write_lock weak point op_type key t =
    lock_loop weak 1 spin_retries op_type key (lock_from_point (weak 0) point key t)
