-- ===== src/PageOp/Split/Balance.antt =====
-- What a split plan takes from a leaf.
use quickstep.Base.{ℕ, suc, ◌+◌, ◌/◌, ◌≤◌, ◌≡◌, refl, ap, sym, ◌∙◌, arith}
use quickstep.Base.{List, [], ◌∷◌, ◌++◌, Option, none, some, length, take, drop}
use quickstep.Base.{length-drop, length-take_of_le, take-append-drop}
use quickstep.Node.{Node, LeafEntry, entries, get_node_prefix, fence_bounds}
use quickstep.PageOp.{LeafEntryOwned, live_entries, to_owned, from_entry, owned_entries}
use quickstep.PageOp.Split.{LeafSplitPlan, from_node}

to_owned-append :
    (p : List ℕ) (xs ys : List LeafEntry) → to_owned p (xs ++ ys) ≡ to_owned p xs ++ to_owned p ys
unfolding to_owned
to_owned-append p [] ys = refl
to_owned-append p (x ∷ xs) ys = ap (λ es. from_entry p x ∷ es) (to_owned-append p xs ys)

length-to_owned : (p : List ℕ) (xs : List LeafEntry) → length (to_owned p xs) ≡ length xs
unfolding to_owned
length-to_owned p [] = refl
length-to_owned p (x ∷ xs) = ap suc (length-to_owned p xs)

-- No plan only for a leaf without entries; or one that divides the entries in the middle.
abbrev pub IsPlanOf : Node → Option LeafSplitPlan → Type 0
IsPlanOf n none = owned_entries n ≡ []
IsPlanOf n (some plan) =
    (plan.left_entries ++ plan.right_entries ≡ owned_entries n)
    × (length plan.left_entries ≤ length plan.right_entries)
    × (length plan.right_entries ≤ length plan.left_entries + 1)
    × ((value : List ℕ) × (rest : List LeafEntryOwned) × (plan.right_entries
          ≡ record { key = plan.pivot_key; value = value } ∷ rest))
    × ((plan.lower_fence, plan.upper_fence) ≡ fence_bounds n)

module _ (n : Node) where
  live : List LeafEntry
  live = live_entries (entries n)

  half : ℕ
  half = length live / 2

  parts_at : (ds : List LeafEntry) → drop half live ≡ ds → IsPlanOf n (from_node n)
  unfolding from_node owned_entries to_owned from_entry live half
  parts_at [] none_left =
      let empty : length live ≡ 0 = omega (arith, length-drop half live, ap length none_left) in
      rw (none_left, from_node) (no_entries live empty)
    where
      no_entries : (es : List LeafEntry) → length es ≡ 0 → to_owned (get_node_prefix n) es ≡ []
      no_entries [] h = refl
      no_entries (x ∷ xs) h = absurd (omega arith)
  parts_at (d ∷ ds) some_left =
      let p = get_node_prefix n in
      let left = length-to_owned p (take half live) ∙ length-take_of_le half live (omega arith) in
      let right = length-to_owned p (drop half live) ∙ length-drop half live in
      rw (some_left, from_node)
        (
          sym (to_owned-append p (take half live) (drop half live))
              ∙ ap (to_owned p) (take-append-drop half live),
          omega (arith, left, right),
          omega (arith, left, right),
          (d.value, to_owned p ds, ap (to_owned p) some_left),
          refl,
        )

  -- `from_node` gives no plan only for a leaf without entries. Otherwise the left entries and then
  -- the right ones are the entries of the leaf, the right side has as many as the left one or one
  -- more, its first key is the pivot, and the outer fences are those of the leaf.
  pub from_node-IsPlanOf : IsPlanOf n (from_node n)
  from_node-IsPlanOf = parts_at (drop half live) refl
