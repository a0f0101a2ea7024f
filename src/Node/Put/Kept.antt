-- ===== src/Node/Put/Kept.antt =====
-- A new entry keeps the invariant of the node.
use quickstep.Base.{ℕ, ◌+◌, ◌-◌, ◌≤◌, ◌<◌, ◌≡◌, inl, inr, ap, ap₂, sym, ◌∙◌, subst, arith}
use quickstep.Base.{List, false, length, All}
use quickstep.Base.Bytes.{IsByte}
use quickstep.Base.Words.{IsU64}
use quickstep.Base.Memory.{IsApart}
use quickstep.Base.Order.{compare_bytes, compare_bytes_flip_lt}
use Prim.Native.Nat.{Ordering}
use Ordering.{gt}
use quickstep.Types.KvMeta
use quickstep.Node.{Node, count, meta_addr, get_kv_meta, get_lookahead}
use quickstep.Node.Search.{missing}
use quickstep.Node.Search.Sorted.{IsOrdered, IsPlace, key_at}
use quickstep.Node.Layout.{IsNode, IsSameEntry, offset_at, len_at}
use quickstep.Node.Put.Insert.{IsRecord, fields-new_record_meta}
use quickstep.Node.Put.Insert.Invariant.{inserted, count-inc, word_fields, index_cases}
use quickstep.Node.Put.Insert.Invariant.{entry_before, entry_behind, entry_new}

module _ (n : Node) (p : ℕ) (s val : List ℕ) (off : ℕ) (h : IsNode n) (hr : IsRecord s val off)
    (place : IsPlace n s (missing p)) (few : count n + 1 < 512)
    (room : meta_addr (count n + 1) ≤ off)
    (low : (i : ℕ) → i < count n → off + (length s + length val) ≤ offset_at n i) where
  abbrev n' : Node
  n' = inserted n p s val off

  pub count-inserted : count (inserted n p s val off) ≡ count n + 1
  count-inserted = (count-inc n.header h.header few).0

  before : (i : ℕ) → i < p → IsSameEntry n i n' i
  before = entry_before n p s val off h hr place few room low

  behind : (i : ℕ) → p ≤ i → i < count n → IsSameEntry n i n' (i + 1)
  behind = entry_behind n p s val off h hr place few room low

  new :
      (key_at n' p ≡ s)
      × (offset_at n' p ≡ off)
      × (len_at n' p ≡ length s + length val)
      × (KvMeta.fence (get_kv_meta n' p) ≡ false)
      × (KvMeta.look_ahead (get_kv_meta n' p) ≡ get_lookahead s)
  new =
      let (word, key, value) = entry_new n p s val off h hr place few room low in
      let f = word_fields s val off hr in
      (
        key,
        ap KvMeta.offset word ∙ f.2,
        ap (λ w. KvMeta.key_size w + KvMeta.val_size w) word ∙ ap₂ (λ x y. x + y) f.0 f.1,
        ap KvMeta.fence word ∙ f.4,
        ap KvMeta.look_ahead word ∙ f.5,
      )

  -- A property of single entries that the old ones and the new one have.
  each_entry {ℓ} :
      (P : Node → ℕ → Type ℓ) (from to : ℕ)
      → ((i j : ℕ) → IsSameEntry n i n' j → P n i → P n' j)
      → ((i : ℕ) → from ≤ i → i < to → P n i)
      → P n' p
      → from ≤ p
      → p ≤ to
      → to ≤ count n
      → (i : ℕ) → from ≤ i
      → i < to + 1
      → P n' i
  each_entry P from to carry old at_new low_place in_place high_place i low_i high_i =
      elim (index_cases p i) [
        | inl front ↦ carry i i (before i front) (old i low_i (omega (arith, place.1)))
        | inr (inl same) ↦ subst (P n') (sym same) at_new
        | inr (inr (k, same, back)) ↦
            subst (P n') (sym same)
              (carry k (k + 1) (behind k back (omega arith)) (old k (omega arith) (omega arith)))
      ]

  -- A property of two entries in order.
  each_pair {ℓ} :
      (P : Node → ℕ → ℕ → Type ℓ) (from to : ℕ)
      → ((i j i' j' : ℕ) → IsSameEntry n i n' i' → IsSameEntry n j n' j' → P n i j → P n' i' j')
      → ((i j : ℕ) → from ≤ i → i < j → j < to → P n i j)
      → ((i : ℕ) → from ≤ i → i < p → P n' i p)
      → ((k : ℕ) → p ≤ k → k < to → P n' p (k + 1))
      → from ≤ p
      → p ≤ to
      → to ≤ count n
      → (i j : ℕ) → from ≤ i
      → i < j
      → j < to + 1
      → P n' i j
  each_pair P from to carry old second first low_place in_place high_place i j low_i order high_j =
      elim (index_cases p i) [
        | inl i_front ↦ elim (index_cases p j) [
          | inl j_front ↦
              carry i j i j (before i i_front) (before j j_front)
                (old i j low_i order (omega arith))
          | inr (inl j_new) ↦ subst (P n' i) (sym j_new) (second i low_i i_front)
          | inr (inr (k, j_is, j_back)) ↦ subst (P n' i) (sym j_is) (
              carry i k i (k + 1) (before i i_front) (behind k j_back (omega arith))
                (old i k low_i (omega arith) (omega arith)))
        ]
        | inr (inl i_new) ↦ elim (index_cases p j) [
          | inl j_front ↦ absurd (omega arith)
          | inr (inl j_new) ↦ absurd (omega arith)
          | inr (inr (k, j_is, j_back)) ↦
              subst (λ x. P n' x j) (sym i_new)
                (subst (P n' p) (sym j_is) (first k j_back (omega arith)))
        ]
        | inr (inr (m, i_is, i_back)) ↦ elim (index_cases p j) [
          | inl j_front ↦ absurd (omega arith)
          | inr (inl j_new) ↦ absurd (omega arith)
          | inr (inr (k, j_is, j_back)) ↦
              subst (λ x. P n' x j) (sym i_is)
                (subst (P n' (m + 1)) (sym j_is) (
                  carry m k (m + 1) (k + 1) (behind m i_back (omega arith))
                    (behind k j_back (omega arith))
                    (old m k (omega arith) (omega arith) (omega arith))))
        ]
      ]

  inserted-IsOrdered : IsOrdered n'
  inserted-IsOrdered = record {
    two = omega (arith, count-inserted, h.ordered.two);
    lower_fence = ap KvMeta.fence (before 0 (omega (arith, place.0))).0 ∙ h.ordered.lower_fence;
    upper_fence =
        ap (λ c. KvMeta.fence (get_kv_meta n' (c - 1))) count-inserted
        ∙ ap (λ c. KvMeta.fence (get_kv_meta n' c)) last
        ∙ ap KvMeta.fence
            (behind (count n - 1) (omega (arith, place.1)) (omega (arith, h.ordered.two))).0
        ∙ h.ordered.upper_fence;
    ascending = λ i j low_i order high_j.
        each_pair (λ m x y. compare_bytes (key_at m y) (key_at m x) ≡ gt) 1 (count n - 1)
          (λ x y x' y' sx sy old. ap₂ compare_bytes sy.1 sx.1 ∙ old) h.ordered.ascending
          (λ x low_x front. ap₂ compare_bytes new.0 (before x front).1 ∙ place.2 x low_x front)
          (λ k back high_k.
            ap₂ compare_bytes (behind k back (omega arith)).1 new.0
            ∙ compare_bytes_flip_lt s (key_at n k) (place.3 k back high_k))
          place.0 place.1 (omega arith) i j low_i order
          (omega (arith, count-inserted, h.ordered.two));
    look_ahead = λ i low_i high_i.
        each_entry (λ m x. KvMeta.look_ahead (get_kv_meta m x) ≡ get_lookahead (key_at m x)) 1
          (count n - 1)
          (λ x x' same old. ap KvMeta.look_ahead same.0 ∙ old ∙ ap get_lookahead (sym same.1))
          h.ordered.look_ahead (new.4 ∙ ap get_lookahead (sym new.0)) place.0 place.1 (omega arith)
          i low_i (omega (arith, count-inserted, h.ordered.two));
    bytes = λ i low_i high_i.
        each_entry (λ m x. All IsByte (key_at m x)) 1 (count n - 1)
          (λ x x' same old. subst (All IsByte) (sym same.1) old) h.ordered.bytes
          (subst (All IsByte) (sym new.0) hr.bytes) place.0 place.1 (omega arith) i low_i
          (omega (arith, count-inserted, h.ordered.two));
  }
    where
      last : count n + 1 - 1 ≡ count n - 1 + 1
      last = omega (arith, h.ordered.two)

  pub inserted-IsNode : IsNode (inserted n p s val off)
  inserted-IsNode = record {
    ordered = inserted-IsOrdered;
    header = (count-inc n.header h.header few).1;
    words = λ i high_i.
        each_entry (λ m x. IsU64 (get_kv_meta m x)) 0 (count n)
          (λ x x' same old. subst IsU64 (sym same.0) old) (λ x low_x. h.words x)
          (subst IsU64 (sym (entry_new n p s val off h hr place few room low).0)
            (fields-new_record_meta s val off hr).0)
          (omega arith) (omega (arith, place.1)) (omega arith) i (omega arith)
          (omega (arith, count-inserted));
    user = λ i low_i high_i.
        each_entry (λ m x. KvMeta.fence (get_kv_meta m x) ≡ false) 1 (count n - 1)
          (λ x x' same old. ap KvMeta.fence same.0 ∙ old) h.user new.3 place.0 place.1 (omega arith)
          i low_i (omega (arith, count-inserted, h.ordered.two));
    behind = λ i high_i.
        subst (λ c. meta_addr c ≤ offset_at n' i) (sym count-inserted)
          (each_entry (λ m x. meta_addr (count n + 1) ≤ offset_at m x) 0 (count n)
            (λ x x' same old.
              subst (λ w. meta_addr (count n + 1) ≤ KvMeta.offset w) (sym same.0) old)
            (λ x low_x high_x. omega (arith, low x high_x)) (omega (arith, new.1)) (omega arith)
            (omega (arith, place.1)) (omega arith) i (omega arith) (omega (arith, count-inserted)));
    apart = λ i j order high_j.
        each_pair (λ m x y. IsApart (offset_at m x) (len_at m x) (offset_at m y) (len_at m y)) 0
          (count n) (λ x y x' y' sx sy old. rw (sx.0, sy.0) old) (λ x y low_x. h.apart x y)
          (λ x low_x front. inr (
            omega (
              arith,
              new.1,
              new.2,
              low x (omega (arith, place.1)),
              ap KvMeta.offset (before x front).0,
            )))
          (λ k back high_k.
            inl (
              omega (arith, new.1, new.2, low k high_k, ap KvMeta.offset (behind k back high_k).0)))
          (omega arith) (omega (arith, place.1)) (omega arith) i j (omega arith) order
          (omega (arith, count-inserted));
  }
