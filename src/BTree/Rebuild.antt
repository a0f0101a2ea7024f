-- ===== src/BTree/Rebuild.antt =====
-- Changes of a node that build it again from its entries.
pub mod Entries
pub mod Inserted
use quickstep.Base.{
  ℕ, zero, suc, ◌+◌, ◌-◌, ◌%◌, ◌^◌, List, [], ◌∷◌, Option, none, some, Bool, false, ◌==◌,
}
use quickstep.Base.{length, ltb, if◌then◌else◌}
use quickstep.Utils.{store_u48}
use quickstep.BTree.{
  BpNode, get_key, get_leaf_child, get_inner_child, inline_buffer_len, max_key_length,
}
use quickstep.BTree.{leaf_child_bytes, meta_bytes}
use quickstep.BTree.Append.{
  BpError, BpResult, bp_done, bp_failed, bp_panic, append_leaf_entry, append_inner_entry,
  write_entry,
}
use BpError.{key_too_large, parent_child_missing}

pub data ChildPointer : Type 0 where
  leaf_child inner_child : ℕ → ChildPointer

unfoldable pub same_child : ChildPointer → ChildPointer → Bool
same_child (leaf_child a) (leaf_child b) = a == b
same_child (inner_child a) (inner_child b) = a == b
same_child (leaf_child a) (inner_child b) = false
same_child (inner_child a) (leaf_child b) = false

unfoldable pub lowest_child_for_level : BpNode → ℕ → ChildPointer
lowest_child_for_level n level =
    if level == 1 then leaf_child n.lowest else inner_child (n.lowest % 2 ^ 32)

unfoldable pub get_child_for_level : BpNode → ℕ → ℕ → ChildPointer
get_child_for_level n idx level =
    if level == 1 then leaf_child (get_leaf_child n idx) else inner_child (get_inner_child n idx)

-- The two resets.
unfoldable pub reset_parent : ℕ → BpNode → BpNode
reset_parent lowest n = record n { count = 0; alloc_idx = inline_buffer_len - 1; lowest = lowest }

-- `none` is the panic of a child of the other kind.
unfoldable pub reset_for_level : ℕ → ChildPointer → BpNode → Option BpNode
reset_for_level level (leaf_child page) n = if level == 1 then some (reset_parent page n) else none
reset_for_level level (inner_child id) n = if level == 1 then none else some (reset_parent id n)

unfoldable pub append_entry_for_level : ℕ → List ℕ → ChildPointer → BpNode → BpResult
append_entry_for_level level key (leaf_child page) n =
    if level == 1 then append_leaf_entry key page n else bp_panic
append_entry_for_level level key (inner_child id) n =
    if level == 1 then bp_panic else append_inner_entry key id n

-- The pivots and their children; `none` is a panic of `get_key`.
unfoldable pub node_entries : ℕ → ℕ → ℕ → BpNode → Option (List (List ℕ × ChildPointer))
node_entries zero idx level n = some []
node_entries (suc left) idx level n =
    let rest = node_entries left (idx + 1) level n in
    elim (get_key n idx) [
      | none ↦ none
      | some key ↦ elim rest [
        | none ↦ none
        | some es ↦ some ((key, get_child_for_level n idx level) ∷ es)
      ]
    ]

unfoldable pub append_all : ℕ → List (List ℕ × ChildPointer) → BpNode → BpResult
append_all level [] n = bp_done n
append_all level ((key, child) ∷ es) n = elim (append_entry_for_level level key child n) [
  | bp_done n' ↦ append_all level es n'
  | bp_failed e n' ↦ bp_failed e n'
  | bp_panic ↦ bp_panic
]

-- The entry goes behind the one of that child; `none` if there is no such child.
unfoldable pub insert_after :
    ChildPointer
    → List ℕ × ChildPointer
    → List (List ℕ × ChildPointer)
    → Option (List (List ℕ × ChildPointer))
insert_after left entry [] = none
insert_after left entry ((key, child) ∷ es) =
    let rest = insert_after left entry es in
    if same_child child left
    then some ((key, child) ∷ entry ∷ es)
    else elim rest [ none ↦ none | some es' ↦ some ((key, child) ∷ es') ]

-- In front of all others if it is the lowest child.
unfoldable pub with_entry :
    ChildPointer
    → ChildPointer
    → List ℕ × ChildPointer
    → List (List ℕ × ChildPointer)
    → Option (List (List ℕ × ChildPointer))
with_entry lowest left entry es =
    if same_child left lowest then some (entry ∷ es) else insert_after left entry es

unfoldable pub rebuild : ℕ → ChildPointer → List (List ℕ × ChildPointer) → BpNode → BpResult
rebuild level lowest es n = elim (reset_for_level level lowest n) [
  | none ↦ bp_panic
  | some n' ↦ append_all level es n'
]

unfoldable pub insert_entry_after_child :
    ℕ → ChildPointer → List ℕ → ChildPointer → BpNode → BpResult
insert_entry_after_child level left_child pivot_key right_child n =
    let lowest = lowest_child_for_level n level in
    elim (node_entries n.count 0 level n) [
      | none ↦ bp_panic
      | some es ↦ elim (with_entry lowest left_child (pivot_key, right_child) es) [
        | none ↦ bp_failed parent_child_missing n
        | some es' ↦ rebuild level lowest es' n
      ]
    ]

unfoldable pub insert_leaf_entry_after_child : ℕ → List ℕ → ℕ → BpNode → BpResult
insert_leaf_entry_after_child left pivot_key right n =
    insert_entry_after_child 1 (leaf_child left) pivot_key (leaf_child right) n

unfoldable pub init_leaf_parent : ℕ → ℕ → List ℕ → BpNode → BpResult
init_leaf_parent left right pivot_key n =
    let n₁ = reset_parent left n in
    let total = length pivot_key + leaf_child_bytes in
    if ltb max_key_length (length pivot_key)
    then bp_failed key_too_large n
    else if ltb inline_buffer_len (total + meta_bytes)
    then bp_failed key_too_large n₁
    else bp_done (
        write_entry pivot_key (store_u48 right) (inline_buffer_len - 1 - total + 1)
          (record n₁ { alloc_idx = inline_buffer_len - 1 - total }))

-- `children.iter().position`
unfoldable pub position : ChildPointer → List ChildPointer → Option ℕ
position child [] = none
position child (c ∷ cs) =
    let rest = position child cs in
    if same_child c child then some 0 else elim rest [ none ↦ none | some i ↦ some (suc i) ]

unfoldable pub children_of : List (List ℕ × ChildPointer) → List ChildPointer
children_of [] = []
children_of ((key, child) ∷ es) = child ∷ children_of es

-- `pivots.remove` and `children.remove` of a pivot and the child behind it.
unfoldable pub remove_at : ℕ → List (List ℕ × ChildPointer) → List (List ℕ × ChildPointer)
remove_at i [] = []
remove_at zero (e ∷ es) = es
remove_at (suc i) (e ∷ es) = e ∷ remove_at i es

-- The node afterwards, and, when that is `bp_done`, its only child if no pivot is left.
unfoldable pub remove_entry_for_merge :
    ℕ → ChildPointer → ChildPointer → BpNode → BpResult × Option ChildPointer
remove_entry_for_merge level survivor removed n =
    let lowest = lowest_child_for_level n level in
    elim (node_entries n.count 0 level n) [
      | none ↦ (bp_panic, none)
      | some es ↦
          let children = lowest ∷ children_of es in
          elim (position survivor children) [
            | none ↦ (bp_failed parent_child_missing n, none)
            | some survivor_idx ↦ elim (position removed children) [
              | none ↦ (bp_failed parent_child_missing n, none)
              | some removed_idx ↦
                  if removed_idx == survivor_idx + 1
                  then (let es' = remove_at survivor_idx es in
                      (rebuild level lowest es' n, if length es' == 0 then some lowest else none))
                  else (bp_failed parent_child_missing n, none)
            ]
          ]
    ]
