-- ===== src/BTree/Tree/Traverse.antt =====
-- The way down to the leaf of a key, under version words that are read before a node and again behind
-- it. `env i` is the tree at access `i` of the thread: in between, other threads may change it.
use quickstep.Base.{
  ℕ, zero, suc, ◌+◌, List, [], ◌∷◌, Option, none, some, true, false, ◌==◌, if◌then◌else◌,
}
use quickstep.MapTable.Loops.{spin_retries}
use quickstep.BTree.{
  BpNode, can_overflow, will_underflow, is_locked_or_obsolete, get_key, get_leaf_child,
}
use quickstep.BTree.Search.{search_for_leaf, search_for_inner}
use quickstep.BTree.Tree.{BpTree, root_leaf, root_inner, get_root}

-- `none` is `BPRestart`.
unfoldable pub read_version : ℕ → Option ℕ
read_version vlock = if is_locked_or_obsolete vlock then none else some vlock

unfoldable pub read_root : BpTree → Option ℕ
read_root t = read_version t.root_vlock

unfoldable pub read_inner : ℕ → BpTree → Option ℕ
read_inner id t = read_version (t.vlocks id)

-- From where an operation has to lock: the root, or a node with the version that was read.
pub data WriteLockPoint : Type 0 where
  at_root : WriteLockPoint
  at_inner : (version node level : ℕ) → WriteLockPoint

-- The two fence keys of the source are never set.
pub record ReadRes : Type 0 where
  pub page : ℕ
  pub overflow_point : WriteLockPoint
  pub underflow_point : WriteLockPoint

pub data Traversal : Type 0 where
  reached : ReadRes → Traversal
  restart traverse_panic : Traversal

unfoldable pub update_overflow : BpNode → ℕ → ℕ → ℕ → WriteLockPoint → WriteLockPoint
update_overflow n version id level overflow =
    if can_overflow n level then overflow else at_inner version id level

unfoldable pub update_underflow : BpNode → ℕ → ℕ → ℕ → WriteLockPoint → WriteLockPoint
update_underflow n version id level underflow =
    if will_underflow n then underflow else at_inner version id level

-- The step at a node above leaves, from access `i` on: the search, and the check of the version.
unfoldable pub reach_leaf :
    ℕ → ℕ → List ℕ → WriteLockPoint → WriteLockPoint → (ℕ → BpTree) → ℕ → Traversal
reach_leaf version id key overflow underflow env i = elim (search_for_leaf ((env i).slab id) key) [
  | none ↦ traverse_panic
  | some page ↦
      if version == (env (i + 1)).vlocks id
      then reached (record { page = page; overflow_point = overflow; underflow_point = underflow })
      else restart
]

-- The `while`, with the level of the node.
unfoldable pub descend :
    ℕ → ℕ → ℕ → List ℕ → WriteLockPoint → WriteLockPoint → (ℕ → BpTree) → ℕ → Traversal
descend zero version id key overflow underflow env i =
    reach_leaf version id key overflow underflow env i
descend (suc zero) version id key overflow underflow env i =
    reach_leaf version id key overflow underflow env i
descend (suc (suc level)) version id key overflow underflow env i =
    elim (search_for_inner ((env i).slab id) key) [
      | none ↦ traverse_panic
      | some cur ↦ elim (read_inner cur (env (i + 1))) [
        | none ↦ restart
        | some cur_version ↦ elim (version == (env (i + 2)).vlocks id) [
          | false ↦ restart
          | true ↦
              let n = (env (i + 3)).slab cur in
              descend (suc level) cur_version cur key
                (update_overflow n cur_version cur (suc level) overflow)
                (update_underflow n cur_version cur (suc level) underflow) env (i + 4)
        ]
      ]
    ]

unfoldable pub try_read_traverse_leaf : List ℕ → (ℕ → BpTree) → Traversal
try_read_traverse_leaf key env = elim (read_root (env 0)) [
  | none ↦ restart
  | some root_version ↦ elim (get_root (env 1)) [
    | root_leaf page ↦
        reached (record { page = page; overflow_point = at_root; underflow_point = at_root })
    | root_inner level node ↦ elim (read_inner node (env 2)) [
      | none ↦ restart
      | some version ↦ elim (root_version == (env 3).root_vlock) [
        | false ↦ restart
        | true ↦
            let n = (env 4).slab node in
            descend level version node key (update_overflow n version node level at_root)
              (update_underflow n version node level at_root) env 5
      ]
    ]
  ]
]

-- The retries, each with what it finds.
unfoldable pub traverse_loop : ℕ → List ℕ → (ℕ → ℕ → BpTree) → ℕ → Traversal
traverse_loop zero key env attempt = restart
traverse_loop (suc n) key env attempt =
    let rest = traverse_loop n key env (attempt + 1) in
    elim (try_read_traverse_leaf key (env attempt)) [
      | reached res ↦ reached res
      | restart ↦ rest
      | traverse_panic ↦ traverse_panic
    ]

-- `restart` is `OLCRetriesExceeded`.
unfoldable pub read_traverse_leaf : List ℕ → (ℕ → ℕ → BpTree) → Traversal
read_traverse_leaf key env = traverse_loop spin_retries key env 0

pub record DebugLeafParent : Type 0 where
  pub pivots : List (List ℕ)
  pub children : List ℕ

-- The pivots from `idx` on and their children; `none` is a panic.
unfoldable pub parent_entries : ℕ → ℕ → BpNode → Option DebugLeafParent
parent_entries zero idx n = some (record { pivots = []; children = [] })
parent_entries (suc left) idx n =
    let rest = parent_entries left (idx + 1) n in
    elim (get_key n idx) [
      | none ↦ none
      | some key ↦ elim rest [
        | none ↦ none
        | some p ↦
            some (record { pivots = key ∷ p.pivots; children = get_leaf_child n idx ∷ p.children })
      ]
    ]

-- While no other thread runs. The inner `none` is that there is no snapshot.
unfoldable pub debug_root_leaf_parent : BpTree → Option (Option DebugLeafParent)
debug_root_leaf_parent t = elim (read_root t) [
  | none ↦ some none
  | some root_version ↦ elim (get_root t) [
    | root_leaf page ↦ some none
    | root_inner level node ↦
        if level == 1
        then elim (read_inner node t) [
          | none ↦ some none
          | some version ↦ elim (parent_entries (t.slab node).count 0 (t.slab node)) [
            | none ↦ none
            | some p ↦ some (some (record p { children = (t.slab node).lowest ∷ p.children }))
          ]
        ]
        else some none
  ]
]

unfoldable pub root_level : BpTree → ℕ
root_level t = elim (read_root t) [
  | none ↦ 0
  | some version ↦ elim (get_root t) [ root_leaf page ↦ 0 | root_inner level node ↦ level ]
]
