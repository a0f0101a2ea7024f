-- ===== src/BTree/Tree/Parents/Full.antt =====
-- A leaf is split below a root node that has no room for another pivot.
use quickstep.Base.{
  ℕ, ◌+◌, ◌^◌, ◌≤◌, ◌<◌, ◌≡◌, ◌≢◌, ◌⊎◌, inl, inr, refl, ap, sym, subst, ◌∙◌, arith,
}
use quickstep.Base.{
  List, [], ◌∷◌, ◌++◌, true, false, length, leb, ◌==◌, ==_iff, All, Bool-cases, true≢false,
}
use quickstep.BTree.{blank}
use quickstep.BTree.Append.{BpError}
use BpError.{parent_child_missing}
use quickstep.BTree.Append.Room.{append_inner_entry_panics}
use quickstep.BTree.Rebuild.{leaf_child, rebuild, reset_for_level, append_all}
use quickstep.BTree.Rebuild.{append_entry_for_level, reset_parent}
use quickstep.BTree.Rebuild.{
  insert_leaf_entry_after_child, lowest_child_for_level, with_entry, same_child,
}
use quickstep.BTree.Rebuild.Entries.{Pivots, cost, IsHolding, IsPivot, reset_parent-IsHolding}
use quickstep.BTree.Rebuild.Inserted.{IsNoChild, IsBehind, entries_read, insert_after_missing}
use quickstep.BTree.Rebuild.Inserted.{insert_leaf_entry_after_child-IsCutShort}
use quickstep.BTree.Tree.{BpTree, tree_failed, tree_panic, in_node, in_slab}
use quickstep.BTree.Tree.{set_slab, alloc_inner_node, promote_inner_root, split_inner_node}
use quickstep.BTree.Tree.Split.{split_inner_node-IsSplit, All_parts, cost-IsBehind}
use quickstep.BTree.Tree.Parents.{LockedInner, PendingParentSplit, insert_or, split_and}
use quickstep.BTree.Tree.Parents.{
  bubble_split_up, promote_pending, insert_into_parents_after_leaf_split,
}

-- A node above inner nodes cannot be built.
promote_inner_root_panics :
    (t : BpTree) (left right : ℕ) (pivot : List ℕ)
    → length pivot ≤ 64
    → t.next_free < t.cap
    → promote_inner_root left right pivot 1 t ≡ tree_panic
unfolding promote_inner_root alloc_inner_node set_slab rebuild reset_for_level append_all
    append_entry_for_level in_slab
promote_inner_root_panics t left right pivot short some_room =
    let room : leb t.cap t.next_free ≡ false = ground (arith, some_room) in
    let same : (t.next_free == t.next_free) ≡ true = (==_iff t.next_free t.next_free).1 refl in
    let base = reset_parent-IsHolding left blank in
    let panics =
      append_inner_entry_panics (reset_parent left blank) pivot right base.node short
        (omega (arith, base.free, base.holds, short)) in
    rw (room, promote_inner_root, alloc_inner_node) (rw same (rw panics refl))

-- Where the child stands, if it does.
child_cases :
    (left : ℕ) (es : Pivots)
    → IsNoChild left es
      ⊎ ((front : Pivots) × (key : List ℕ) × (back : Pivots) × (es ≡ front ++ ((key, left) ∷ back))
          × IsNoChild left front)
child_cases left [] = inl tt
child_cases left ((key, child) ∷ es) = elim (Bool-cases (child == left)) [
  | inl here ↦ inr ([], key, es, ap (λ c. (key, c) ∷ es) ((==_iff child left).0 here), tt)
  | inr other ↦
      let differs : child ≢ left = λ same. true≢false (sym ((==_iff child left).1 same) ∙ other) in
      elim (child_cases left es) [
        | inl absent ↦ inl (differs, absent)
        | inr (front, k, back, parts, absent) ↦
            inr ((key, child) ∷ front, k, back, ap (λ l. (key, child) ∷ l) parts, (differs, absent))
      ]
]

All_join : (xs ys : Pivots) → All IsPivot xs → All IsPivot ys → All IsPivot (xs ++ ys)
All_join [] ys h k = k
All_join (x ∷ xs) ys (h, hs) k = (h, All_join xs ys hs k)

All-IsBehind :
    (lowest left : ℕ) (e : List ℕ × ℕ) (es es' : Pivots)
    → IsPivot e
    → All IsPivot es
    → IsBehind lowest left e es es'
    → All IsPivot es'
All-IsBehind lowest left e es es' one ok (inl (same, here)) =
    subst (All IsPivot) (sym here) (one, ok)
All-IsBehind lowest left e es es' one ok (inr (other, (front, key, back, parts, absent, here))) =
    let (front_ok, rest_ok) = All_parts front ((key, left) ∷ back) (subst (All IsPivot) parts ok) in
    subst (All IsPivot) (sym here)
      (All_join front ((key, left) ∷ e ∷ back) front_ok (rest_ok.0, (one, rest_ok.1)))

-- The child may be gone from the node.
IsBehind-cases :
    (lowest left : ℕ) (e : List ℕ × ℕ) (es : Pivots)
    → ((es' : Pivots) × IsBehind lowest left e es es') ⊎ ((left ≢ lowest) × IsNoChild left es)
IsBehind-cases lowest left e es = elim (Bool-cases (left == lowest)) [
  | inl low ↦ inl (e ∷ es, inl ((==_iff left lowest).0 low, refl))
  | inr other ↦
      let differs : left ≢ lowest =
        λ same. true≢false (sym ((==_iff left lowest).1 same) ∙ other) in
      elim (child_cases left es) [
        | inl absent ↦ inr (differs, absent)
        | inr (front, key, back, parts, absent) ↦ inl (
          front ++ ((key, left) ∷ e ∷ back),
          inr (differs, (front, key, back, parts, absent, refl)),
        )
      ]
]

split_inner_node_missing :
    (t : BpTree) (id left : ℕ) (pivot : List ℕ) (right : ℕ) (es : Pivots)
    → IsHolding (t.slab id) es
    → left ≢ (t.slab id).lowest
    → IsNoChild left es
    → split_inner_node id 1 (leaf_child left) pivot (leaf_child right) t
      ≡ tree_failed (in_node parent_child_missing) t
unfolding split_inner_node lowest_child_for_level with_entry same_child
split_inner_node_missing t id left pivot right es h other absent =
    let differs : (left == (t.slab id).lowest) ≡ false = ground (arith, other) in
    rw (entries_read (t.slab id) es h left pivot right, split_inner_node)
      (rw (differs, with_entry) (rw (insert_after_missing es left pivot right absent) refl))

-- What is left to do when the insertion has failed: the split of the node, and a new root.
module _ (t : BpTree) (id left : ℕ) (pivot : List ℕ) (right : ℕ) (kept : Pivots)
    (h : IsHolding (t.slab id) kept) (kept_ok : All IsPivot kept) (one : IsPivot (pivot, right))
    (some_room : t.next_free + 1 < t.cap) (bound : t.cap ≤ 2 ^ 32) (before : id < t.next_free)
    (many : 3998 < cost kept) where
  abbrev locked : LockedInner
  locked = record { level = 1; node = id }

  abbrev pending : PendingParentSplit
  pending = record {
    left_child = leaf_child left;
    pivot_key = pivot;
    right_child = leaf_child right;
    child_level = 0;
  }

  split_and_stuck :
      (split_and locked pending (bubble_split_up true []) t ≡ tree_panic)
      ⊎ (split_and locked pending (bubble_split_up true []) t
          ≡ tree_failed (in_node parent_child_missing) t)
  unfolding split_and bubble_split_up promote_pending
  split_and_stuck = elim (IsBehind-cases (t.slab id).lowest left (pivot, right) kept) [
    | inr (other, absent) ↦
        inr
          (rw (split_inner_node_missing t id left pivot right kept h other absent, split_and) refl)
    | inl (es, place) ↦
        let ok = All-IsBehind (t.slab id).lowest left (pivot, right) kept es one kept_ok place in
        let enough : 3998 < cost es =
          omega (arith, many, cost-IsBehind _ left pivot right kept es place) in
        let (t', s, splits) =
          split_inner_node-IsSplit t id left pivot right kept es h place ok one.0
            (omega (arith, some_room)) (λ same. omega (arith, same, before)) enough in
        let (left_ok, rest_ok) =
          All_parts s.lefts ((s.pivot, s.child) ∷ s.rights) (subst (All IsPivot) s.parts ok) in
        let room : t'.next_free < t'.cap = omega (arith, s.next, s.same_cap, some_room, bound) in
        inl (
          rw (splits, split_and)
            (promote_inner_root_panics t' id t.next_free s.pivot rest_ok.0.0 room))
  ]

-- A leaf is split below a root node above leaves, which has no room for the new pivot, while the tree
-- has room for two more nodes, and for at most 2 ^ 32; pivots have at most 64 bytes, and children are
-- below 2 ^ 48. This never succeeds. Either it panics, or it fails since the left leaf
-- is no longer among the children of the node, which has lost some by then.
pub insert_into_parents_stuck :
    (t : BpTree) (id left : ℕ) (pivot : List ℕ) (right : ℕ) (es es' : Pivots)
    → IsHolding (t.slab id) es
    → IsBehind (t.slab id).lowest left (pivot, right) es es'
    → All IsPivot es'
    → IsPivot (pivot, right)
    → 4072 < cost es'
    → t.next_free + 1 < t.cap
    → t.cap ≤ 2 ^ 32
    → id < t.next_free
    → (insert_into_parents_after_leaf_split
          (record { root_lock = true; chain = record { level = 1; node = id } ∷ [] })
          left
          pivot
          right
          t
        ≡ tree_panic)
      ⊎ ((t' : BpTree) × (insert_into_parents_after_leaf_split
              (record { root_lock = true; chain = record { level = 1; node = id } ∷ [] })
              left
              pivot
              right
              t
            ≡ tree_failed (in_node parent_child_missing) t'))
unfolding insert_into_parents_after_leaf_split insert_or in_slab set_slab
    insert_leaf_entry_after_child
insert_into_parents_stuck t id left pivot right es es' h place ok one over some_room bound before =
    let (n', fails, cut) =
      insert_leaf_entry_after_child-IsCutShort (t.slab id) es h left pivot right es' place ok
        over in
    let same : (id == id) ≡ true = (==_iff id id).1 refl in
    let t₁ = set_slab id n' t in
    let (kept_ok, rest_ok) =
      All_parts cut.kept (cut.first ∷ cut.lost) (subst (All IsPivot) cut.parts ok) in
    let holding : IsHolding (t₁.slab id) cut.kept = rw same cut.holding in
    let stuck =
      split_and_stuck t₁ id left pivot right cut.kept holding kept_ok one some_room bound before
        (omega (arith, cut.full, rest_ok.0.0)) in
    elim stuck [
      | inl panics ↦ inl (rw (fails, insert_into_parents_after_leaf_split, insert_or) panics)
      | inr missing ↦ inr (t₁, rw (fails, insert_into_parents_after_leaf_split, insert_or) missing)
    ]
