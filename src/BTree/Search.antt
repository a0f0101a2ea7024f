-- ===== src/BTree/Search.antt =====
-- The search for the child of a key.
pub mod Child
use quickstep.Base.{
  ℕ, zero, suc, ◌+◌, ◌-◌, ◌/◌, ◌%◌, ◌^◌, List, Option, none, some, true, false, ltb,
}
use Prim.Native.Nat.{Ordering}
use Ordering.{lt, eq, gt}
use quickstep.Base.Order.{compare_bytes}
use quickstep.BTree.{BpNode, get_key, get_leaf_child, get_inner_child}

-- The `while`, on the order of each pivot and the key. `none` is a panic of `get_key`, or the end of
-- the fuel.
unfoldable pub pivot_loop : ℕ → (ℕ → Option Ordering) → ℕ → ℕ → Option ℕ
pivot_loop zero order low high = none
pivot_loop (suc fuel) order low high =
    let mid = low + (high - low) / 2 in
    elim (ltb low high) [
      | false ↦ some low
      | true ↦ elim (order mid) [
        | none ↦ none
        | some gt ↦ pivot_loop fuel order low mid
        | some _ ↦ pivot_loop fuel order (mid + 1) high
      ]
    ]

-- A pivot against the key.
unfoldable pub pivot_order : BpNode → List ℕ → ℕ → Option Ordering
pivot_order n key i = elim (get_key n i) [
  | none ↦ none
  | some pivot ↦ some (compare_bytes pivot key)
]

-- `saturating_sub(1)`
unfoldable pub binary_search : BpNode → List ℕ → Option ℕ
binary_search n key = elim (pivot_loop (n.count + 1) (pivot_order n key) 0 n.count) [
  | none ↦ none
  | some low ↦ some (low - 1)
]

-- What the two searches share: the lowest child, or the one behind the pivot.
unfoldable pub search_for : BpNode → List ℕ → ℕ → (ℕ → ℕ) → Option ℕ
search_for n key lowest child = elim (binary_search n key) [
  | none ↦ none
  | some idx ↦ elim (get_key n idx) [
    | none ↦ none
    | some pivot_key ↦ elim (compare_bytes key pivot_key) [
      | lt ↦ some lowest
      | _ ↦ some (child idx)
    ]
  ]
]

unfoldable pub search_for_leaf : BpNode → List ℕ → Option ℕ
search_for_leaf n key = search_for n key n.lowest (get_leaf_child n)

unfoldable pub search_for_inner : BpNode → List ℕ → Option ℕ
search_for_inner n key = search_for n key (n.lowest % 2 ^ 32) (get_inner_child n)
