-- ===== src/BTree/Search/Child.antt =====
-- The search in a node whose pivots ascend.
use quickstep.Base.{
  ℕ, zero, suc, ◌+◌, ◌-◌, ◌/◌, ◌≤◌, ◌<◌, ◌≡◌, ◌≢◌, ◌⊎◌, inl, inr, refl, ap, ◌∙◌, arith,
}
use quickstep.Base.{List, Option, some, Bool-cases, ltb, ◌==◌}
use Prim.Native.Nat.{Ordering}
use Ordering.{lt, eq, gt}
use quickstep.Base.Order.{compare_bytes, compare_bytes_trans, compare_bytes_flip}
use quickstep.Base.Order.{compare_bytes_flip_lt}
use quickstep.Node.Search.Loop.{Ordering-cases}
use quickstep.BTree.{BpNode, get_key, get_leaf_child}
use quickstep.BTree.Search.{pivot_loop, pivot_order, binary_search, search_for, search_for_leaf}

-- Pivots before the place are not above the key, those from it on are.
abbrev pub IsUpperBound : (ℕ → Ordering) → ℕ → ℕ → Type 0
IsUpperBound o count p =
    (p ≤ count) × ((i : ℕ) → i < p → o i ≢ gt) × ((i : ℕ) → p ≤ i → i < count → o i ≡ gt)

not_gt : (x : Ordering) → (x ≡ lt) ⊎ (x ≡ eq) → x ≢ gt
not_gt x h = ground arith

module _ (order : ℕ → Option Ordering) (o : ℕ → Ordering) (count : ℕ)
    (same : (i : ℕ) → i < count → order i ≡ some (o i))
    (up : (i j : ℕ) → i < j → j < count → o i ≡ gt → o j ≡ gt) where
  from_mid : (m i : ℕ) → m ≤ i → i < count → o m ≡ gt → o i ≡ gt
  from_mid m i from to more = elim (Bool-cases (i == m)) [
    | inl here ↦ ap o (ground arith) ∙ more
    | inr further ↦ up m i (ground arith) to more
  ]

  up_to : (m i : ℕ) → m < count → i < m + 1 → (o m ≡ lt) ⊎ (o m ≡ eq) → o i ≢ gt
  up_to m i inside before h more = not_gt (o m) h (from_mid i m (omega arith) inside more)

  pub pivot_loop-IsUpperBound :
      (fuel low high : ℕ)
      → low ≤ high
      → high ≤ count
      → high - low < fuel
      → ((i : ℕ) → i < low → o i ≢ gt)
      → ((i : ℕ) → high ≤ i → i < count → o i ≡ gt)
      → (p : ℕ) × (pivot_loop fuel order low high ≡ some p) × IsUpperBound o count p
  unfolding pivot_loop
  pivot_loop-IsUpperBound zero low high order_ok top enough below above = absurd (omega arith)
  pivot_loop-IsUpperBound (suc fuel) low high order_ok top enough below above =
      let mid : ℕ = low + (high - low) / 2 in
      elim (Bool-cases (ltb low high)) [
        | inr closed ↦ (
          low,
          rw (closed, pivot_loop) refl,
          (omega arith, below, λ i from to. above i (ground arith) to),
        )
        | inl open_range ↦
            let before : low < high = ground arith in
            let inside : mid < count = omega arith in
            elim (Ordering-cases (o mid)) [
              | inr (inr more) ↦
                  let (p, ends, bound) =
                    pivot_loop-IsUpperBound fuel low mid (omega arith) (omega arith) (omega arith)
                      below (λ i from to. from_mid mid i from to more) in
                  (p, rw (open_range, same mid inside ∙ ap some more, pivot_loop) ends, bound)
              | inl less ↦
                  let (p, ends, bound) =
                    pivot_loop-IsUpperBound fuel (mid + 1) high (omega arith) top (omega arith)
                      (λ i to. up_to mid i inside to (inl less)) above in
                  (p, rw (open_range, same mid inside ∙ ap some less, pivot_loop) ends, bound)
              | inr (inl level) ↦
                  let (p, ends, bound) =
                    pivot_loop-IsUpperBound fuel (mid + 1) high (omega arith) top (omega arith)
                      (λ i to. up_to mid i inside to (inr level)) above in
                  (p, rw (open_range, same mid inside ∙ ap some level, pivot_loop) ends, bound)
            ]
      ]

-- The pivots of a node, ascending.
pub record IsPivots (n : BpNode) (pivot : ℕ → List ℕ) : Type 0 where
  pub some_pivot : 1 ≤ n.count
  pub keys : (i : ℕ) → i < n.count → get_key n i ≡ some (pivot i)
  pub ascending : (i j : ℕ) → i < j → j < n.count → compare_bytes (pivot j) (pivot i) ≡ gt

-- The child of a key: the lowest one, or the one behind the last pivot that is not above the key.
abbrev pub IsChild : BpNode → (ℕ → List ℕ) → List ℕ → ℕ → Type 0
IsChild n pivot key child =
    ((child ≡ n.lowest) × ((i : ℕ) → i < n.count → compare_bytes (pivot i) key ≡ gt))
    ⊎ ((idx : ℕ) × (idx < n.count)
        × (child ≡ get_leaf_child n idx)
        × ((i : ℕ) → i ≤ idx → compare_bytes (pivot i) key ≢ gt)
        × ((i : ℕ) → idx < i → i < n.count → compare_bytes (pivot i) key ≡ gt))

not_lowest :
    (n : BpNode) (p : ℕ) (x : Ordering)
    → x ≢ lt
    → elim x [ lt ↦ some n.lowest | _ ↦ some (get_leaf_child n p) ] ≡ some (get_leaf_child n p)
not_lowest n p lt other = absurd (other refl)
not_lowest n p eq other = refl
not_lowest n p gt other = refl

module _ (n : BpNode) (pivot : ℕ → List ℕ) (key : List ℕ) (h : IsPivots n pivot) where
  o : ℕ → Ordering
  o i = compare_bytes (pivot i) key

  orders : (i : ℕ) → i < n.count → pivot_order n key i ≡ some (compare_bytes (pivot i) key)
  unfolding pivot_order
  orders i inside = rw (h.keys i inside, pivot_order) refl

  place_to_child :
      (p : ℕ)
      → pivot_loop (n.count + 1) (pivot_order n key) 0 n.count ≡ some p
      → IsUpperBound (λ i. compare_bytes (pivot i) key) n.count p
      → (child : ℕ) × (search_for_leaf n key ≡ some child) × IsChild n pivot key child
  unfolding search_for_leaf search_for binary_search
  place_to_child zero ends (top, below, above) =
      let less : compare_bytes key (pivot 0) ≡ lt =
        compare_bytes_flip (pivot 0) key (above 0 (omega arith) h.some_pivot) in
      (
        n.lowest,
        rw (ends, h.keys 0 h.some_pivot, less, search_for_leaf, search_for, binary_search) refl,
        inl (refl, λ i inside. above i (omega arith) inside),
      )
  place_to_child (suc p) ends (top, below, above) =
      let idx : ℕ = suc p - 1 in
      let not_less : compare_bytes key (pivot idx) ≢ lt =
        λ less. below idx (omega arith) (compare_bytes_flip_lt key (pivot idx) less) in
      (
        get_leaf_child n idx,
        rw (ends, h.keys idx (omega arith), search_for_leaf, search_for, binary_search)
            (not_lowest n idx (compare_bytes key (pivot idx)) not_less),
        inr (
          idx,
          omega arith,
          refl,
          (λ i to. below i (omega arith)),
          λ i from to. above i (omega arith) to,
        ),
      )

  -- On a node with pivots that ascend, the search ends and gives the child of the key: the lowest
  -- one if all pivots are above the key, or the one behind the last pivot that is not.
  pub search_for_leaf-IsChild :
      (child : ℕ) × (search_for_leaf n key ≡ some child) × IsChild n pivot key child
  search_for_leaf-IsChild =
      let (p, ends, bound) =
        pivot_loop-IsUpperBound (pivot_order n key) (λ i. compare_bytes (pivot i) key) n.count
          orders
          (λ i j before inside more.
            compare_bytes_trans (pivot j) (pivot i) key (h.ascending i j before inside) more)
          (n.count + 1) 0 n.count (omega arith) (omega arith) (omega arith)
          (λ i before. absurd (omega arith)) (λ i from to. absurd (omega arith)) in
      place_to_child p ends bound
