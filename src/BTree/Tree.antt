-- ===== src/BTree/Tree.antt =====
-- The tree above its nodes: the word of the root, the slab of nodes, and the operations that change
-- their shape.
pub mod Split
pub mod Traverse
pub mod Parents
pub mod Versions
pub mod Locks
mod Examples
pub mod Promoted
use quickstep.Base.{ℕ, zero, suc, ◌+◌, ◌-◌, ◌*◌, ◌/◌, ◌%◌, ◌^◌, List, [], ◌∷◌, Option, none, some}
use quickstep.Base.{
  Bool, true, false, ◌==◌, ltb, leb, if◌then◌else◌, length, take, drop, get_elem?, bit_or, bit_and,
}
use quickstep.Base.Words.{shl, shr}
use quickstep.BTree.{BpNode, blank, get_key, get_leaf_child}
use quickstep.BTree.Append.{BpError, BpResult, bp_done, bp_failed, bp_panic}
use BpError.{parent_child_missing}
use quickstep.BTree.Rebuild.{ChildPointer, leaf_child, inner_child, lowest_child_for_level}
use quickstep.BTree.Rebuild.{node_entries, with_entry, rebuild, init_leaf_parent}
use quickstep.BTree.Rebuild.{insert_entry_after_child, remove_entry_for_merge}

-- `slab` holds the nodes, and `vlocks` their version words.
pub record BpTree : Type 0 where
  pub slab : ℕ → BpNode
  pub vlocks : ℕ → ℕ
  pub cap : ℕ
  pub root : ℕ
  pub root_vlock : ℕ
  pub next_free : ℕ
  pub free_list : ℕ

-- The bytes of the slab are counted in 32 bits. A build that checks overflows panics where they do not
-- fit, and another one would allocate too few.
unfoldable pub has_slab : ℕ → Bool
has_slab inner_node_upper_bound = ltb (inner_node_upper_bound * 4096) (2 ^ 32)

-- The memory is not initialised.
unfoldable pub new : ℕ → (ℕ → BpNode) → (ℕ → ℕ) → Option BpTree
new inner_node_upper_bound slab vlocks =
    if has_slab inner_node_upper_bound
    then some (record {
      slab = slab;
      vlocks = vlocks;
      cap = inner_node_upper_bound;
      root = 0;
      root_vlock = 0;
      next_free = 1;
      free_list = 2 ^ 32 - 1;
    })
    else none

unfoldable pub set_leaf_root : ℕ → BpTree → BpTree
set_leaf_root page t = record t { root = page }

pub data TreeError : Type 0 where
  tree_full : TreeError
  in_node : BpError → TreeError

-- The value of `Ok` with the tree, an error with the tree as it is left, and a panic.
pub data TreeResult (A : Type 0) : Type 0 where
  tree_done : A → BpTree → TreeResult A
  tree_failed : TreeError → BpTree → TreeResult A
  tree_panic : TreeResult A

unfoldable pub set_slab : ℕ → BpNode → BpTree → BpTree
set_slab id n t = record t { slab = λ i. if i == id then n else t.slab i }

-- The index is used up also when there is no such node.
unfoldable pub alloc_inner_node : BpTree → TreeResult ℕ
alloc_inner_node t =
    let idx = t.next_free in
    let t₁ = record t { next_free = (idx + 1) % 2 ^ 32 } in
    if leb t.cap idx
    then tree_failed tree_full t₁
    else tree_done idx
        (record (set_slab idx blank t₁) { vlocks = λ i. if i == idx then 0 else t.vlocks i })

-- The result of a change of a node, in the tree.
unfoldable pub in_slab : ℕ → BpTree → BpResult → TreeResult (Unit {0})
in_slab id t (bp_done n) = tree_done tt (set_slab id n t)
in_slab id t (bp_failed e n) = tree_failed (in_node e) (set_slab id n t)
in_slab id t bp_panic = tree_panic

-- The root: a page, or a node and its level.
pub data BpRootInfo : Type 0 where
  root_leaf : (page : ℕ) → BpRootInfo
  root_inner : (level node : ℕ) → BpRootInfo

unfoldable pub get_root : BpTree → BpRootInfo
get_root t =
    let level = shr t.root 48 % 2 ^ 16 in
    if level == 0
    then root_leaf (bit_and t.root (2 ^ 48 - 1))
    else root_inner level (t.root % 2 ^ 32)

unfoldable pub set_inner : ℕ → ℕ → BpTree → BpTree
set_inner node level t = record t { root = bit_or (shl level 48) node }

unfoldable pub set_leaf : ℕ → BpTree → BpTree
set_leaf page t = record t { root = page }

unfoldable pub promote_leaf_root : ℕ → ℕ → List ℕ → BpTree → TreeResult (Unit {0})
promote_leaf_root left_child right_child pivot_key t = elim (alloc_inner_node t) [
  | tree_failed e t₁ ↦ tree_failed e t₁
  | tree_panic ↦ tree_panic
  | tree_done id t₁ ↦
      elim (in_slab id t₁ (init_leaf_parent left_child right_child pivot_key (t₁.slab id))) [
        | tree_done u t₂ ↦ tree_done tt (set_inner id 1 t₂)
        | tree_failed e t₂ ↦ tree_failed e t₂
        | tree_panic ↦ tree_panic
      ]
]

unfoldable pub promote_inner_root : ℕ → ℕ → List ℕ → ℕ → BpTree → TreeResult (Unit {0})
promote_inner_root left right pivot_key child_level t =
    let new_level = (child_level + 1) % 2 ^ 16 in
    elim (alloc_inner_node t) [
      | tree_failed e t₁ ↦ tree_failed e t₁
      | tree_panic ↦ tree_panic
      | tree_done id t₁ ↦
          elim (in_slab id t₁ (
            rebuild new_level (inner_child left) ((pivot_key, inner_child right) ∷ [])
              (t₁.slab id))) [
                | tree_done u t₂ ↦ tree_done tt (set_inner id new_level t₂)
                | tree_failed e t₂ ↦ tree_failed e t₂
                | tree_panic ↦ tree_panic
              ]
    ]

-- The only child that is left, if no pivot is.
unfoldable pub remove_child_after_merge :
    ℕ → ℕ → ChildPointer → ChildPointer → BpTree → TreeResult (Option ChildPointer)
remove_child_after_merge id level survivor removed t =
    let (result, demote) = remove_entry_for_merge level survivor removed (t.slab id) in
    elim (in_slab id t result) [
      | tree_done u t₁ ↦ tree_done demote t₁
      | tree_failed e t₁ ↦ tree_failed e t₁
      | tree_panic ↦ tree_panic
    ]

unfoldable pub demote_root_after_merge : ChildPointer → ℕ → BpTree → TreeResult (Unit {0})
demote_root_after_merge (leaf_child page) parent_level t =
    if parent_level == 1 then tree_done tt (set_leaf page t) else tree_panic
demote_root_after_merge (inner_child id) parent_level t =
    if parent_level == 1
    then tree_panic
    else tree_done tt (set_inner id ((parent_level + 2 ^ 16 - 1) % 2 ^ 16) t)

pub record InnerSplitPropagation : Type 0 where
  pub pivot_key : List ℕ
  pub right_node : ℕ

-- The entries with the new one among them are given out: those in front of the middle one stay.
unfoldable pub split_entries :
    ℕ → ℕ → ChildPointer → List (List ℕ × ChildPointer) → BpTree → TreeResult InnerSplitPropagation
split_entries id level lowest es t =
    let promote_idx = length es / 2 in
    elim (get_elem? es promote_idx) [
      | none ↦ tree_panic
      | some (promote_key, right_lowest) ↦ elim (alloc_inner_node t) [
        | tree_failed e t₁ ↦ tree_failed e t₁
        | tree_panic ↦ tree_panic
        | tree_done right t₁ ↦
            elim (in_slab id t₁ (rebuild level lowest (take promote_idx es) (t₁.slab id))) [
              | tree_failed e t₂ ↦ tree_failed e t₂
              | tree_panic ↦ tree_panic
              | tree_done u t₂ ↦
                  elim (in_slab right t₂
                    (rebuild level right_lowest (drop (promote_idx + 1) es) (t₂.slab right))) [
                      | tree_failed e t₃ ↦ tree_failed e t₃
                      | tree_panic ↦ tree_panic
                      | tree_done u' t₃ ↦
                          tree_done (record { pivot_key = promote_key; right_node = right }) t₃
                    ]
            ]
      ]
    ]

unfoldable pub split_inner_node :
    ℕ → ℕ → ChildPointer → List ℕ → ChildPointer → BpTree → TreeResult InnerSplitPropagation
split_inner_node id level left_child pivot_key right_child t =
    let n = t.slab id in
    let lowest = lowest_child_for_level n level in
    elim (node_entries n.count 0 level n) [
      | none ↦ tree_panic
      | some es ↦ elim (with_entry lowest left_child (pivot_key, right_child) es) [
        | none ↦ tree_failed (in_node parent_child_missing) t
        | some es' ↦ split_entries id level lowest es' t
      ]
    ]
