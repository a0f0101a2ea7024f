-- ===== src/BTree/Rebuild/Inserted.antt =====
-- A pivot is inserted behind a child of a node above leaves.
use quickstep.Base.{ℕ, ◌≤◌, ◌<◌, ◌≡◌, ◌≢◌, ◌⊎◌, inl, inr, refl, ap, sym, ◌∙◌, arith}
use quickstep.Base.{List, [], ◌∷◌, ◌++◌, none, some, false, ◌==◌, ==_iff, All}
use quickstep.BTree.{BpNode}
use quickstep.BTree.Append.{BpError, bp_done, bp_failed}
use BpError.{node_full, parent_child_missing}
use quickstep.BTree.Rebuild.{leaf_child, same_child, insert_after, with_entry, rebuild}
use quickstep.BTree.Rebuild.{append_all, reset_parent, reset_for_level, lowest_child_for_level}
use quickstep.BTree.Rebuild.{node_entries, insert_entry_after_child, insert_leaf_entry_after_child}
use quickstep.BTree.Rebuild.Entries.{Pivots, as_entries, cost, IsHolding, IsPivot, IsCutShort}
use quickstep.BTree.Rebuild.Entries.{append_all-IsHolding, append_all-IsCutShort}
use quickstep.BTree.Rebuild.Entries.{
  reset_parent-IsHolding, node_entries-HoldsFrom, IsHolding-count,
}

abbrev pub IsNoChild : ℕ → Pivots → Type 0
IsNoChild child [] = Unit
IsNoChild child ((key, c) ∷ es) = (c ≢ child) × IsNoChild child es

-- The entry stands right behind the child, in front of all others if that is the lowest one.
abbrev pub IsBehind : ℕ → ℕ → List ℕ × ℕ → Pivots → Pivots → Type 0
IsBehind lowest left e es es' =
    ((left ≡ lowest) × (es' ≡ e ∷ es))
    ⊎ ((left ≢ lowest)
        × ((front : Pivots) × (key : List ℕ) × (back : Pivots) × (es
              ≡ front ++ ((key, left) ∷ back))
            × IsNoChild left front
            × (es' ≡ front ++ ((key, left) ∷ e ∷ back))))

insert_after_child :
    (front back : Pivots) (left : ℕ) (key pivot : List ℕ) (right : ℕ)
    → IsNoChild left front
    → insert_after
        (leaf_child left)
        (pivot, leaf_child right)
        (as_entries (front ++ ((key, left) ∷ back)))
      ≡ some (as_entries (front ++ ((key, left) ∷ (pivot, right) ∷ back)))
unfolding insert_after same_child
insert_after_child [] back left key pivot right h = rw ((==_iff left left).1 refl) refl
insert_after_child ((k, c) ∷ front) back left key pivot right (other, h) =
    ground (arith, other, insert_after_child front back left key pivot right h)

pub insert_after_missing :
    (es : Pivots) (left : ℕ) (pivot : List ℕ) (right : ℕ)
    → IsNoChild left es
    → insert_after (leaf_child left) (pivot, leaf_child right) (as_entries es) ≡ none
unfolding insert_after same_child
insert_after_missing [] left pivot right h = refl
insert_after_missing ((k, c) ∷ es) left pivot right (other, h) =
    ground (arith, other, insert_after_missing es left pivot right h)

pub with_entry-IsBehind :
    (lowest left : ℕ) (pivot : List ℕ) (right : ℕ) (es es' : Pivots)
    → IsBehind lowest left (pivot, right) es es'
    → with_entry (leaf_child lowest) (leaf_child left) (pivot, leaf_child right) (as_entries es)
      ≡ some (as_entries es')
unfolding with_entry same_child
with_entry-IsBehind lowest left pivot right es es' (inl (same, here)) =
    rw ((==_iff left lowest).1 same, with_entry) (ap (λ l. some (as_entries l)) (sym here))
with_entry-IsBehind lowest left pivot right es es'
      (inr (other, (front, key, back, parts, absent, here))) =
    let differs : (left == lowest) ≡ false = ground (arith, other) in
    rw (differs, with_entry)
      (ap (λ l. insert_after (leaf_child left) (pivot, leaf_child right) (as_entries l)) parts
        ∙ insert_after_child front back left key pivot right absent
        ∙ ap (λ l. some (as_entries l)) (sym here))

module _ (n : BpNode) (es : Pivots) (h : IsHolding n es) (left : ℕ) (pivot : List ℕ)
    (right : ℕ) where
  pub entries_read : node_entries n.count 0 1 n ≡ some (as_entries es)
  entries_read =
      ap (λ c. node_entries c 0 1 n) (sym (IsHolding-count n es h))
      ∙ node_entries-HoldsFrom es n 0 h.holds

  module _ (es' : Pivots) (place : IsBehind n.lowest left (pivot, right) es es')
      (ok : All IsPivot es') where
    insert_rebuilds :
        insert_leaf_entry_after_child left pivot right n
        ≡ append_all 1 (as_entries es') (reset_parent n.lowest n)
    unfolding insert_leaf_entry_after_child insert_entry_after_child lowest_child_for_level rebuild
        reset_for_level
    insert_rebuilds =
        rw (entries_read, insert_leaf_entry_after_child, insert_entry_after_child)
          (rw (with_entry-IsBehind n.lowest left pivot right es es' place) refl)

    -- On a node above leaves that holds pivots with their children, the pivot and its child go right
    -- behind the given child, and all of them fit: each pivot has at most 64 bytes and each child is
    -- below 2 ^ 48. The insertion succeeds, the node holds them, and the lowest child is the same.
    pub insert_leaf_entry_after_child-IsHolding :
        cost es' ≤ 4072
        → (n' : BpNode) × (insert_leaf_entry_after_child left pivot right n ≡ bp_done n')
          × IsHolding n' es'
          × (n'.lowest ≡ n.lowest)
    unfolding reset_parent
    insert_leaf_entry_after_child-IsHolding fits =
        let (n', done, holding, low) =
          append_all-IsHolding es' (reset_parent n.lowest n) [] (reset_parent-IsHolding n.lowest n)
            ok (omega (arith, fits)) in
        (n', insert_rebuilds ∙ done, holding, low)

    -- The same on a node for which they are too many: the insertion fails, and the node that is left
    -- holds only the first ones of the pivots with the new one among them, and has lost the others.
    pub insert_leaf_entry_after_child-IsCutShort :
        4072 < cost es'
        → (n' : BpNode) × (insert_leaf_entry_after_child left pivot right n
            ≡ bp_failed node_full n')
          × IsCutShort [] es' (reset_parent n.lowest n) n'
    insert_leaf_entry_after_child-IsCutShort over =
        let (n', fails, cut) =
          append_all-IsCutShort es' (reset_parent n.lowest n) [] (reset_parent-IsHolding n.lowest n)
            ok (omega arith) (omega (arith, over)) in
        (n', insert_rebuilds ∙ fails, cut)

  -- Behind a child that the node does not have, nothing is inserted, and the node is as before.
  pub insert_leaf_entry_after_child_missing :
      left ≢ n.lowest
      → IsNoChild left es
      → insert_leaf_entry_after_child left pivot right n ≡ bp_failed parent_child_missing n
  unfolding insert_leaf_entry_after_child insert_entry_after_child lowest_child_for_level with_entry
      same_child
  insert_leaf_entry_after_child_missing other absent =
      let differs : (left == n.lowest) ≡ false = ground (arith, other) in
      rw (entries_read, insert_leaf_entry_after_child, insert_entry_after_child)
        (rw (differs, with_entry) (rw (insert_after_missing es left pivot right absent) refl))
