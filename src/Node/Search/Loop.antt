-- ===== src/Node/Search/Loop.antt =====
-- The loop of `binary_search` finds the place of the key among entries in order.
use quickstep.Base.{
  ℕ, zero, suc, ◌+◌, ◌-◌, ◌/◌, ◌≤◌, ◌<◌, ◌≡◌, ◌≢◌, ◌⊎◌, inl, inr, refl, sym, ap, ◌∙◌, arith,
}
use quickstep.Base.{Bool-cases, ltb, ◌==◌, ==_iff}
use Prim.Native.Nat.{Ordering}
use Ordering.{lt, eq, gt}
use quickstep.Node.Search.{Found, found, missing, out_of_fuel, search_loop}

-- A key that is not below an entry is above all entries in front of it.
abbrev pub IsSplit : (ℕ → Ordering) → ℕ → ℕ → Type 0
IsSplit order low high = (i j : ℕ) → low ≤ i → i < j → j ≤ high → order j ≢ lt → order i ≡ gt

-- The entry that is equal, or the place between the smaller and the larger entries.
abbrev pub IsPlaceIn : (ℕ → Ordering) → ℕ → ℕ → Found → Type 0
IsPlaceIn order low high (found i) = (low ≤ i) × (i ≤ high) × (order i ≡ eq)
IsPlaceIn order low high (missing p) =
    (low ≤ p)
    × (p ≤ high + 1)
    × ((i : ℕ) → low ≤ i → i < p → order i ≡ gt)
    × ((i : ℕ) → p ≤ i → i ≤ high → order i ≡ lt)
IsPlaceIn order low high out_of_fuel = ⊥

pub Ordering-cases : (o : Ordering) → (o ≡ lt) ⊎ ((o ≡ eq) ⊎ (o ≡ gt))
Ordering-cases lt = inl refl
Ordering-cases eq = inr (inl refl)
Ordering-cases gt = inr (inr refl)

pub lt_ne_gt : (o : Ordering) → o ≡ lt → o ≢ gt
lt_ne_gt o h k = ground arith

pub eq_ne_lt : (o : Ordering) → o ≡ eq → o ≢ lt
eq_ne_lt o h k = ground arith

pub gt_ne_lt : (o : Ordering) → o ≡ gt → o ≢ lt
gt_ne_lt o h k = ground arith

module _ (order : ℕ → Ordering) (low high : ℕ) (split : IsSplit order low high) where
  -- Behind an entry that the key is not above, the key is below.
  lt_behind : (i j : ℕ) → low ≤ i → i < j → j ≤ high → order i ≢ gt → order j ≡ lt
  lt_behind i j from before to h = elim (Ordering-cases (order j)) [
    | inl less ↦ less
    | inr (inl same) ↦ absurd (h (split i j from before to (eq_ne_lt (order j) same)))
    | inr (inr more) ↦ absurd (h (split i j from before to (gt_ne_lt (order j) more)))
  ]

  lt_from : (m i : ℕ) → low ≤ m → m ≤ i → i ≤ high → order m ≡ lt → order i ≡ lt
  lt_from m i from le to less = elim (Bool-cases (m == i)) [
    | inl same ↦ ap order (sym ((==_iff m i).0 same)) ∙ less
    | inr other ↦ lt_behind m i from (ground arith) to (lt_ne_gt (order m) less)
  ]

  gt_up_to : (m i : ℕ) → low ≤ i → i ≤ m → m ≤ high → order m ≡ gt → order i ≡ gt
  gt_up_to m i from le to more = elim (Bool-cases (i == m)) [
    | inl same ↦ ap order ((==_iff i m).0 same) ∙ more
    | inr other ↦ split i m from (ground arith) to (gt_ne_lt (order m) more)
  ]

  pub search_loop-IsPlaceIn :
      (fuel lower upper : ℕ)
      → upper + 1 < fuel + lower
      → low ≤ lower
      → lower ≤ upper + 1
      → upper ≤ high
      → ((i : ℕ) → low ≤ i → i < lower → order i ≡ gt)
      → ((i : ℕ) → upper < i → i ≤ high → order i ≡ lt)
      → IsPlaceIn order low high (search_loop fuel order lower upper)
  unfolding search_loop
  search_loop-IsPlaceIn zero lower upper enough from fits to below above = omega arith
  search_loop-IsPlaceIn (suc fuel) lower upper enough from fits to below above =
      let mid : ℕ = lower + (upper - lower) / 2 in
      elim (Bool-cases (ltb upper lower)) [
        | inl empty ↦
            rw (empty, search_loop) (from, omega arith, below, λ i le. above i (ground arith))
        | inr filled ↦
            let inside : (lower ≤ mid) × (mid ≤ upper) = ground arith in
            elim (Ordering-cases (order mid)) [
              | inl less ↦ elim (Bool-cases (mid == 0)) [
                | inl start ↦
                    rw (filled, less, start, search_loop)
                      (
                        from,
                        omega arith,
                        below,
                        λ i le to_high. lt_from mid i (omega arith) (ground arith) to_high less,
                      )
                | inr later ↦
                    rw (filled, less, later, search_loop)
                      (search_loop-IsPlaceIn fuel lower (mid - 1) (ground arith) from (ground arith)
                        (omega arith) below
                        λ i behind to_high. lt_from mid i (omega arith) (ground arith) to_high less)
              ]
              | inr (inl same) ↦ rw (filled, same, search_loop) (omega arith, omega arith, same)
              | inr (inr more) ↦
                  rw (filled, more, search_loop)
                    (search_loop-IsPlaceIn fuel (mid + 1) upper (omega arith) (omega arith)
                      (omega arith) to
                      (λ i from_low before.
                        gt_up_to mid i from_low (omega arith) (omega arith) more)
                      above)
            ]
      ]
