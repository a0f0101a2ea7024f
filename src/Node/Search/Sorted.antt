-- ===== src/Node/Search/Sorted.antt =====
-- `binary_search` on a node whose entries are sorted.
use quickstep.Base.{ℕ, ◌+◌, ◌-◌, ◌≤◌, ◌<◌, ◌≡◌, ◌≢◌, inl, inr, refl, sym, ap, ◌∙◌, arith}
use quickstep.Base.{List, [], ◌∷◌, true, Bool-cases, leb, All}
use quickstep.Base.Bytes.{IsByte}
use quickstep.Base.Order.{compare_bytes, compare_bytes-eq}
use quickstep.Base.Order.{compare_bytes_trans}
use Prim.Native.Nat.{Ordering}
use Ordering.{lt, gt}
use quickstep.Types.KvMeta
use quickstep.Node.{Node, count, get_kv_meta, get_stored_key_from_meta, get_lookahead}
use quickstep.Node.Search.{Found, found, missing, out_of_fuel, compare_at, binary_search}
use quickstep.Node.Search.{first_user, last_user}
use quickstep.Node.Search.Loop.{IsSplit, IsPlaceIn, search_loop-IsPlaceIn, Ordering-cases}

abbrev pub key_at : Node → ℕ → List ℕ
key_at n i = get_stored_key_from_meta n (get_kv_meta n i)

-- The fences stand at both ends, the keys between them ascend, and each word shows the first bytes
-- of its key.
pub record IsOrdered (n : Node) : Type 0 where
  pub two : 2 ≤ count n
  pub lower_fence : KvMeta.fence (get_kv_meta n 0) ≡ true
  pub upper_fence : KvMeta.fence (get_kv_meta n (count n - 1)) ≡ true
  pub ascending :
      (i j : ℕ) → 1 ≤ i → i < j → j < count n - 1 → compare_bytes (key_at n j) (key_at n i) ≡ gt
  pub look_ahead :
      (i : ℕ)
      → 1 ≤ i
      → i < count n - 1
      → KvMeta.look_ahead (get_kv_meta n i) ≡ get_lookahead (key_at n i)
  pub bytes : (i : ℕ) → 1 ≤ i → i < count n - 1 → All IsByte (key_at n i)

get_lookahead-lt :
    (a b : List ℕ)
    → All IsByte a
    → All IsByte b
    → get_lookahead a < get_lookahead b
    → compare_bytes a b ≡ lt
unfolding get_lookahead compare_bytes
get_lookahead-lt [] [] ha hb h = absurd (omega arith)
get_lookahead-lt [] (y ∷ ys) ha hb h = refl
get_lookahead-lt (x ∷ xs) [] ha hb h = absurd (omega arith)
get_lookahead-lt (x ∷ []) (y ∷ []) ha hb h = ground arith
get_lookahead-lt (x ∷ []) (y ∷ y' ∷ ys) ha hb h = ground arith
get_lookahead-lt (x ∷ x' ∷ xs) (y ∷ []) ha hb h = ground arith
get_lookahead-lt (x ∷ x' ∷ xs) (y ∷ y' ∷ ys) ha hb h = ground arith

get_lookahead-gt :
    (a b : List ℕ)
    → All IsByte a
    → All IsByte b
    → get_lookahead b < get_lookahead a
    → compare_bytes a b ≡ gt
unfolding get_lookahead compare_bytes
get_lookahead-gt [] [] ha hb h = absurd (omega arith)
get_lookahead-gt [] (y ∷ ys) ha hb h = absurd (omega arith)
get_lookahead-gt (x ∷ xs) [] ha hb h = refl
get_lookahead-gt (x ∷ []) (y ∷ []) ha hb h = ground arith
get_lookahead-gt (x ∷ []) (y ∷ y' ∷ ys) ha hb h = ground arith
get_lookahead-gt (x ∷ x' ∷ xs) (y ∷ []) ha hb h = ground arith
get_lookahead-gt (x ∷ x' ∷ xs) (y ∷ y' ∷ ys) ha hb h = ground arith

-- Looking ahead first changes nothing.
compare_at-compare_bytes :
    (n : Node) (s : List ℕ) (i : ℕ)
    → All IsByte s
    → All IsByte (key_at n i)
    → KvMeta.look_ahead (get_kv_meta n i) ≡ get_lookahead (key_at n i)
    → compare_at n s i ≡ compare_bytes s (key_at n i)
unfolding compare_at
compare_at-compare_bytes n s i hs hk same =
    ground (arith, get_lookahead-lt s (key_at n i) hs hk, get_lookahead-gt s (key_at n i) hs hk)

-- The index of the key, or the place between the smaller and the larger keys.
abbrev pub IsPlace : Node → List ℕ → Found → Type 0
IsPlace n s (found i) = (1 ≤ i) × (i < count n - 1) × (key_at n i ≡ s)
IsPlace n s (missing p) =
    (1 ≤ p)
    × (p ≤ count n - 1)
    × ((i : ℕ) → 1 ≤ i → i < p → compare_bytes s (key_at n i) ≡ gt)
    × ((i : ℕ) → p ≤ i → i < count n - 1 → compare_bytes s (key_at n i) ≡ lt)
IsPlace n s out_of_fuel = ⊥

module _ (n : Node) (s : List ℕ) (h : IsOrdered n) (hs : All IsByte s) where
  at_user : (i : ℕ) → 1 ≤ i → i < count n - 1 → compare_at n s i ≡ compare_bytes s (key_at n i)
  at_user i low high =
      compare_at-compare_bytes n s i hs (h.bytes i low high) (h.look_ahead i low high)

  above_smaller :
      (i j : ℕ)
      → 1 ≤ i
      → i < j
      → j < count n - 1
      → compare_bytes s (key_at n j) ≢ lt
      → compare_bytes s (key_at n i) ≡ gt
  above_smaller i j low before high not_below =
      elim (Ordering-cases (compare_bytes s (key_at n j))) [
        | inl less ↦ absurd (not_below less)
        | inr (inl same) ↦
            ap (λ t. compare_bytes t (key_at n i)) (compare_bytes-eq s (key_at n j) same)
            ∙ h.ascending i j low before high
        | inr (inr more) ↦
            compare_bytes_trans s (key_at n j) (key_at n i) more (h.ascending i j low before high)
      ]

  split : 3 ≤ count n → IsSplit (compare_at n s) 1 (count n - 2)
  split three i j low before high not_below =
      at_user i low (omega arith)
      ∙ above_smaller i j low before (omega arith)
          λ less. not_below (at_user j (omega arith) (omega arith) ∙ less)

  of_found :
      (r : Found) → 3 ≤ count n → IsPlaceIn (compare_at n s) 1 (count n - 2) r → IsPlace n s r
  of_found (found i) three (low, high, same) = (
    low,
    omega arith,
    sym (compare_bytes-eq s (key_at n i) (sym (at_user i low (omega arith)) ∙ same)),
  )
  of_found (missing p) three (low, high, below, above) = (
    low,
    omega arith,
    λ i from before. sym (at_user i from (omega arith)) ∙ below i from before,
    λ i from before. sym (at_user i (omega arith) before) ∙ above i from (omega arith),
  )
  of_found out_of_fuel three h = h

  -- On a node with its two fences and ascending keys between them, for a key of bytes, the search
  -- ends, and gives the index of an entry with that key, or the place between all smaller and all
  -- larger keys.
  pub binary_search-IsPlace : IsPlace n s (binary_search n s)
  unfolding binary_search first_user last_user
  binary_search-IsPlace = elim (Bool-cases (leb (count n) 2)) [
    | inl two ↦ rw two (
      omega arith,
      omega (arith, h.two),
      (λ i from before. absurd (omega arith)),
      λ i from before. absurd (ground (arith, h.two)),
    )
    | inr more ↦
        let three : 3 ≤ count n = ground arith in
        let start : first_user n ≡ 1 = ground (arith, h.lower_fence) in
        let end : last_user n ≡ count n - 2 = ground (arith, h.upper_fence) in
        rw (more, start, end)
          (of_found _ three (
            search_loop-IsPlaceIn (compare_at n s) 1 (count n - 2) (split three) (count n + 1) 1
              (count n - 2) (omega arith) (omega arith) (omega arith) (omega arith)
              (λ i from before. absurd (omega arith)) λ i from to. absurd (omega arith)))
  ]
