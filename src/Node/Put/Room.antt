-- ===== src/Node/Put/Room.antt =====
-- A record that is put where there is room for it.
use quickstep.Base.{ℕ, zero, suc, ◌+◌, ◌-◌, ◌^◌, ◌≤◌, ◌<◌, ◌≡◌, refl, ap, ap₂, ◌∙◌, inl, inr, arith}
use quickstep.Base.{List, none, some, false, All, length, ◌==◌, min}
use quickstep.Base.Bytes.{IsByte}
use quickstep.Types.KvMeta
use quickstep.Node.{Node, count, meta_addr, fence_bounds}
use quickstep.Node.Search.{Found, found, missing, out_of_fuel, binary_search}
use quickstep.Node.Search.Sorted.{IsPlace, binary_search-IsPlace, key_at}
use quickstep.Node.Search.Lookup.{value_of}
use quickstep.Node.Layout.{IsNode, offset_at}
use quickstep.Node.Put.{put_done, find_min_offset, min_offset_from, try_put_with_suffix}
use quickstep.Node.Put.Insert.{IsRecord, find_min_offset-le}
use quickstep.Node.Put.Insert.Invariant.{
  inserted, index_cases, entry_before, entry_behind, entry_new,
}
use quickstep.Node.Put.Insert.Invariant.{word_fields}
use quickstep.Node.Put.Kept.{count-inserted}
use quickstep.Node.Put.Result.{IsPut, put_new-inserted, inserted-IsPut}

offset_at-lt : (n : Node) (i : ℕ) → offset_at n i < 2 ^ 16
unfolding KvMeta.offset
offset_at-lt n i = omega arith

-- All records stand at the bound or above it.
abbrev pub IsAbove : ℕ → Node → Type 0
IsAbove b n = (i : ℕ) → i < count n → b ≤ offset_at n i

min_offset_from-ge :
    (left i acc b : ℕ) (n : Node)
    → ((j : ℕ) → i ≤ j → j < i + left → b ≤ offset_at n j)
    → b ≤ acc
    → b ≤ min_offset_from left i acc n
unfolding min_offset_from
min_offset_from-ge zero i acc b n above ha = ha
min_offset_from-ge (suc left) i acc b n above ha =
    min_offset_from-ge left (i + 1) (min acc (offset_at n i)) b n
      (λ j low high. above j (omega arith) (omega arith))
      (ground (arith, above i (omega arith) (omega arith)))

lowest :
    (b : ℕ) (n : Node)
    → 1 ≤ count n
    → IsAbove b n
    → (m : ℕ) × (find_min_offset n ≡ some m) × (b ≤ m)
unfolding find_min_offset
lowest b n many above =
    let some_left : (count n == 0) ≡ false = ground arith in
    (
      min_offset_from (count n - 1) 1 (offset_at n 0) n,
      rw some_left refl,
      min_offset_from-ge (count n - 1) 1 (offset_at n 0) b n (λ j low high. above j (omega arith))
          (above 0 many),
    )

-- What a put leaves for the next one.
pub record IsPutIn (n : Node) (b : ℕ) (s val : List ℕ) (n' : Node) : Type 0 where
  pub put : IsPut n s val n'
  pub one_more : count n' ≡ count n + 1
  pub above : IsAbove (b - (length s + length val)) n'
  pub bounds : fence_bounds n' ≡ fence_bounds n

module _ (n : Node) (p : ℕ) (s val : List ℕ) (off b : ℕ) (h : IsNode n) (hr : IsRecord s val off)
    (place : IsPlace n s (missing p)) (few : count n + 1 < 512)
    (room : meta_addr (count n + 1) ≤ off)
    (low : (i : ℕ) → i < count n → off + (length s + length val) ≤ offset_at n i)
    (bound : b ≤ off + (length s + length val)) where
  abbrev n' : Node
  n' = inserted n p s val off

  many : count n' ≡ count n + 1
  many = count-inserted n p s val off h hr place few room low

  new_offset : offset_at n' p ≡ off
  new_offset =
      ap KvMeta.offset (entry_new n p s val off h hr place few room low).0
      ∙ (word_fields s val off hr).2

  offsets_after : IsAbove (b - (length s + length val)) n'
  offsets_after i high = elim (index_cases p i) [
    | inl front ↦ omega (
      arith,
      ap KvMeta.offset (entry_before n p s val off h hr place few room low i front).0,
      low i (omega (arith, place.1)),
    )
    | inr (inl new) ↦ omega (arith, ap (offset_at n') new, new_offset)
    | inr (inr (k, same, back)) ↦ omega (
      arith,
      ap (offset_at n') same,
      ap KvMeta.offset
          (entry_behind n p s val off h hr place few room low k back (omega (arith, many))).0,
      low k (omega (arith, many)),
    )
  ]

  bounds_kept : fence_bounds n' ≡ fence_bounds n
  unfolding fence_bounds
  bounds_kept =
      let first =
        (entry_before n p s val off h hr place few room low 0 (omega (arith, place.0))).1 in
      let last : count n' - 1 ≡ count n - 1 + 1 = omega (arith, many, h.ordered.two) in
      ap₂ (λ x y. (x, y)) first
        (ap (key_at n') last
          ∙ (entry_behind n p s val off h hr place few room low (count n - 1)
              (omega (arith, place.1)) (omega (arith, h.ordered.two))).1)

  pub inserted-IsPutIn : IsPutIn n b s val (inserted n p s val off)
  inserted-IsPutIn = record {
    put = inserted-IsPut n p s val off h hr place few room low;
    one_more = many;
    above = offsets_after;
    bounds = bounds_kept;
  }

module _ (n : Node) (s val : List ℕ) (b : ℕ) (h : IsNode n) (hs : All IsByte s)
    (above : IsAbove b n) (in_page : b ≤ 4096)
    (room : meta_addr (count n + 1) + (length s + length val) ≤ b) where
  at_place :
      (r : Found)
      → binary_search n s ≡ r
      → IsPlace n s r
      → value_of n s ≡ none
      → (n' : Node) × (try_put_with_suffix s val n ≡ put_done n') × IsPutIn n b s val n'
  unfolding try_put_with_suffix
  at_place (found i) here place new = absurd (ground (arith, here, new))
  at_place (missing p) here place new =
      let (m, min_is, high) = lowest b n (omega (arith, h.ordered.two)) above in
      let off : ℕ = m - (length s + length val) in
      let top : m < 2 ^ 16 =
        omega (
          arith,
          find_min_offset-le n m 0 min_is (omega (arith, h.ordered.two)),
          offset_at-lt n 0,
        ) in
      let fits : IsRecord s val off = record {
        key = omega arith;
        value = omega arith;
        offset = omega arith;
        bytes = hs;
      } in
      (
        inserted n p s val off,
        rw (here, try_put_with_suffix) (put_new-inserted n p s val m min_is (omega arith) fits),
        inserted-IsPutIn n p s val off b h fits place (omega arith) (omega arith)
            (λ i lt. omega (arith, find_min_offset-le n m i min_is lt)) (omega arith),
      )
  at_place out_of_fuel here place new = absurd place

  pub try_put_with_suffix-IsPutIn :
      value_of n s ≡ none
      → (n' : Node) × (try_put_with_suffix s val n ≡ put_done n') × IsPutIn n b s val n'
  try_put_with_suffix-IsPutIn =
      at_place (binary_search n s) refl (binary_search-IsPlace n s h.ordered hs)
