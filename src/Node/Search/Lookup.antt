-- ===== src/Node/Search/Lookup.antt =====
-- A node as a map from key suffixes to values.
use quickstep.Base.{ℕ, ◌-◌, ◌≤◌, ◌<◌, ◌≡◌, ◌≢◌, ◌⊎◌, inl, inr, refl, ap, sym, ◌∙◌, arith}
use quickstep.Base.{List, Option, none, some, All, Bool-cases, ltb}
use quickstep.Base.Bytes.{IsByte}
use quickstep.Base.Order.{compare_bytes, compare_bytes_refl}
use Prim.Native.Nat.{Ordering}
use Ordering.{eq, gt}
use quickstep.Node.{Node, count, get_kv_meta, get_val_from_meta}
use quickstep.Node.Search.{Found, found, missing, out_of_fuel, binary_search}
use quickstep.Node.Search.Loop.{eq_ne_lt}
use quickstep.Node.Search.Sorted.{IsOrdered, IsPlace, key_at, binary_search-IsPlace}

-- The value of the entry that the search finds.
abbrev pub value_of : Node → List ℕ → Option (List ℕ)
value_of n s = elim (binary_search n s) [
  | found i ↦ some (get_val_from_meta n (get_kv_meta n i))
  | _ ↦ none
]

abbrev pub IsUser : Node → ℕ → Type 0
IsUser n i = (1 ≤ i) × (i < count n - 1)

same_is_eq : (a b : List ℕ) → a ≡ b → compare_bytes a b ≡ eq
same_is_eq a b h = ap (compare_bytes a) (sym h) ∙ compare_bytes_refl a

eq_ne_gt : (o : Ordering) → o ≡ eq → o ≢ gt
eq_ne_gt o h k = ground arith

module _ (n : Node) (s : List ℕ) (h : IsOrdered n) (hs : All IsByte s) where
  one_index : (i j : ℕ) → IsUser n i → IsUser n j → key_at n i ≡ s → key_at n j ≡ s → (i < j) → ⊥
  one_index i j ui uj ki kj order =
      eq_ne_gt _ (same_is_eq (key_at n j) (key_at n i) (kj ∙ sym ki))
        (h.ascending i j ui.0 order uj.1)

  pub place_is_found :
      (r : Found) (i : ℕ) → IsPlace n s r → IsUser n i → key_at n i ≡ s → r ≡ found i
  place_is_found (found j) i (low, high, same) u k = elim (Bool-cases (ltb i j)) [
    | inl before ↦ absurd (one_index i j u (low, high) k same (ground arith))
    | inr other ↦ elim (Bool-cases (ltb j i)) [
      | inl behind ↦ absurd (one_index j i (low, high) u same k (ground arith))
      | inr neither ↦ ap found (ground arith)
    ]
  ]
  place_is_found (missing p) i (low, high, below, above) u k = elim (Bool-cases (ltb i p)) [
    | inl before ↦
        absurd (eq_ne_gt _ (same_is_eq s (key_at n i) (sym k)) (below i u.0 (ground arith)))
    | inr behind ↦
        absurd (eq_ne_lt _ (same_is_eq s (key_at n i) (sym k)) (above i (ground arith) u.1))
  ]
  place_is_found out_of_fuel i place u k = absurd place

  pub value_of_found :
      (i : ℕ)
      → IsUser n i
      → key_at n i ≡ s
      → value_of n s ≡ some (get_val_from_meta n (get_kv_meta n i))
  value_of_found i u k =
      rw (place_is_found (binary_search n s) i (binary_search-IsPlace n s h hs) u k, value_of) refl

  absent_at :
      (r : Found)
      → IsPlace n s r
      → ((i : ℕ) → IsUser n i → key_at n i ≢ s)
      → elim r [ found i ↦ some (get_val_from_meta n (get_kv_meta n i)) | _ ↦ none ] ≡ none
  absent_at (found j) (low, high, same) none_is = absurd (none_is j (low, high) same)
  absent_at (missing p) place none_is = refl
  absent_at out_of_fuel place none_is = refl

  pub value_of_absent : ((i : ℕ) → IsUser n i → key_at n i ≢ s) → value_of n s ≡ none
  value_of_absent none_is = absent_at (binary_search n s) (binary_search-IsPlace n s h hs) none_is

  key_cases_at :
      (r : Found)
      → IsPlace n s r
      → ((i : ℕ) × IsUser n i × (key_at n i ≡ s)) ⊎ ((i : ℕ) → IsUser n i → key_at n i ≢ s)
  key_cases_at (found j) (low, high, same) = inl (j, (low, high), same)
  key_cases_at (missing p) (low, high, below, above) = inr λ i u k. elim (Bool-cases (ltb i p)) [
    | inl before ↦ eq_ne_gt _ (same_is_eq s (key_at n i) (sym k)) (below i u.0 (ground arith))
    | inr behind ↦ eq_ne_lt _ (same_is_eq s (key_at n i) (sym k)) (above i (ground arith) u.1)
  ]
  key_cases_at out_of_fuel place = absurd place

  -- The key stands in the node, or nowhere.
  pub key_cases :
      ((i : ℕ) × IsUser n i × (key_at n i ≡ s)) ⊎ ((i : ℕ) → IsUser n i → key_at n i ≢ s)
  key_cases = key_cases_at (binary_search n s) (binary_search-IsPlace n s h hs)
