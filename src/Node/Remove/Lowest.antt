-- ===== src/Node/Remove/Lowest.antt =====
-- Taking out the entry whose bytes stand lowest.
use quickstep.Base.{
  ℕ, ◌+◌, ◌-◌, ◌*◌, ◌≤◌, ◌<◌, ◌≡◌, ◌≢◌, inl, inr, refl, ap, ap₂, sym, subst, ◌∙◌, arith,
}
use quickstep.Base.{List, none, some, true, false, Bool-cases, ltb, leb, ◌==◌, if◌then◌else◌, All}
use quickstep.Base.Bytes.{IsByte}
use quickstep.Base.Words.{IsU64}
use quickstep.Base.Memory.{read_bytes, move_bytes, read_bytes-move_bytes_apart}
use quickstep.Base.Order.{compare_bytes, compare_bytes_refl}
use Prim.Native.Nat.{Ordering}
use Ordering.{eq, gt}
use quickstep.Types.KvMeta
use quickstep.Types.NodeMeta
use quickstep.Types.NodeMeta.{NodeMeta}
use quickstep.Types.NodeMeta.Header
use quickstep.Types.NodeMeta.Header.{fields-set_record_count, set_record_count-IsU64}
use quickstep.Node.{Node, count, meta_addr, kv_bytes, get_kv_meta, get_val_from_meta}
use quickstep.Node.{get_stored_key_from_meta, get_lookahead}
use quickstep.Node.Words.{word_at, word_at-move_down_before, word_at-move_down_behind}
use quickstep.Node.Search.Sorted.{IsOrdered, key_at}
use quickstep.Node.Search.Lookup.{value_of, IsUser, value_of_found, value_of_absent, key_cases}
use quickstep.Node.Layout.{IsNode, IsSameEntry, offset_at, val_at}
use quickstep.Node.Remove.{remove_entry, shift_meta_left}
use quickstep.Node.Remove.Erase.{erase_kv_in_buffer_of_lowest}

abbrev pub fewer : NodeMeta → NodeMeta
fewer m = NodeMeta.set_record_count m (NodeMeta.record_count m - 1)

abbrev pub removed : Node → ℕ → Node
removed n i = record {
  header = fewer n.header;
  page = move_bytes n.page (meta_addr (i + 1)) (meta_addr i) (kv_bytes * (count n - i - 1));
}

pub record IsRemoved (n : Node) (s : List ℕ) (n' : Node) : Type 0 where
  pub node : IsNode n'
  pub gone : value_of n' s ≡ none
  pub others : (t : List ℕ) → All IsByte t → t ≢ s → value_of n' t ≡ value_of n t

gt_differs : (a b : List ℕ) → compare_bytes b a ≡ gt → b ≢ a
gt_differs a b more same =
    let equal : compare_bytes b a ≡ eq = ap (compare_bytes b) (sym same) ∙ compare_bytes_refl b in
    ground arith

under_of : (a b : ℕ) → ltb a b ≡ true → a < b
under_of a b h = ground arith

module _ (n : Node) (i : ℕ) (h : IsNode n) (user : IsUser n i) (few : count n < 512) where
  abbrev n' : Node
  n' = removed n i

  count-removed : count n' ≡ count n - 1
  unfolding Header.fields
  count-removed =
      ap (λ (f : Header.Fields). f.count) (fields-set_record_count n.header (count n - 1) h.header)
      ∙ omega arith

  -- Where the entry at an index stood before.
  abbrev back : ℕ → ℕ
  back j = if ltb j i then j else j + 1

  word_back : (j : ℕ) → j < count n - 1 → get_kv_meta n' j ≡ get_kv_meta n (back j)
  unfolding get_kv_meta word_at
  word_back j high = elim (Bool-cases (ltb j i)) [
    | inl before ↦
        rw before
          (word_at-move_down_before n.page i (kv_bytes * (count n - i - 1)) j (ground arith))
    | inr behind ↦ rw behind (
        word_at-move_down_behind n.page i (count n - i - 1) j (ground arith)
          (omega (arith, user.1)))
  ]

  back-lt : (j : ℕ) → j < count n - 1 → back j < count n
  back-lt j high = ground arith

  read_kept :
      (len from : ℕ)
      → meta_addr (count n) ≤ from
      → read_bytes n'.page len from ≡ read_bytes n.page len from
  read_kept len from behind =
      read_bytes-move_bytes_apart n.page (meta_addr (i + 1)) (meta_addr i)
        (kv_bytes * (count n - i - 1)) len from (inr (omega (arith, user.1)))

  same_entry : (j : ℕ) → j < count n - 1 → IsSameEntry n (back j) n' j
  unfolding get_stored_key_from_meta get_val_from_meta
  same_entry j high =
      let word = word_back j high in
      let low = h.behind (back j) (back-lt j high) in
      (
        word,
        ap (get_stored_key_from_meta n') word ∙ read_kept _ _ low,
        ap (get_val_from_meta n') word ∙ read_kept _ _ (omega arith),
      )

  -- A property of an entry that all had, all have.
  carried {ℓ} :
      (P : ℕ → List ℕ → Type ℓ) (j : ℕ)
      → j < count n - 1
      → P (get_kv_meta n (back j)) (key_at n (back j))
      → P (get_kv_meta n' j) (key_at n' j)
  carried P j high old =
      let same = same_entry j high in
      subst (λ w. P w (key_at n' j)) (sym same.0)
        (subst (P (get_kv_meta n (back j))) (sym same.1) old)

  removed-IsOrdered : IsOrdered n'
  removed-IsOrdered = record {
    two = omega (arith, count-removed, user.0, user.1);
    lower_fence =
        carried (λ w k. KvMeta.fence w ≡ true) 0 (omega (arith, user.1))
          (ap (λ x. KvMeta.fence (get_kv_meta n x)) (ground (arith, user.0))
            ∙ h.ordered.lower_fence);
    upper_fence =
        ap (λ c. KvMeta.fence (get_kv_meta n' (c - 1))) count-removed
        ∙ carried (λ w k. KvMeta.fence w ≡ true) (count n - 1 - 1) (omega (arith, user.1))
            (ap (λ x. KvMeta.fence (get_kv_meta n x)) (ground (arith, user.1))
              ∙ h.ordered.upper_fence);
    ascending = λ x y low order high.
        ap₂ compare_bytes (same_entry y (omega (arith, count-removed))).1
          (same_entry x (omega (arith, count-removed))).1
        ∙ h.ordered.ascending (back x) (back y) (ground arith) (ground arith)
            (ground (arith, count-removed));
    look_ahead = λ x low high.
        carried (λ w k. KvMeta.look_ahead w ≡ get_lookahead k) x (omega (arith, count-removed))
          (h.ordered.look_ahead (back x) (ground arith) (ground (arith, count-removed)));
    bytes = λ x low high.
        carried (λ w k. All IsByte k) x (omega (arith, count-removed))
          (h.ordered.bytes (back x) (ground arith) (ground (arith, count-removed)));
  }

  removed-IsNode : IsNode n'
  removed-IsNode = record {
    ordered = removed-IsOrdered;
    header = set_record_count-IsU64 n.header (count n - 1) h.header;
    words = λ x high.
        carried (λ w k. IsU64 w) x (omega (arith, count-removed))
          (h.words (back x) (back-lt x (omega (arith, count-removed))));
    user = λ x low high.
        carried (λ w k. KvMeta.fence w ≡ false) x (omega (arith, count-removed))
          (h.user (back x) (ground arith) (ground (arith, count-removed)));
    behind = λ x high.
        carried (λ w k. meta_addr (count n') ≤ KvMeta.offset w) x (omega (arith, count-removed))
          (omega
            (arith, count-removed, h.behind (back x) (back-lt x (omega (arith, count-removed)))));
    apart = λ x y order high.
        rw
          (
            (same_entry x (omega (arith, count-removed))).0,
            (same_entry y (omega (arith, count-removed))).0,
          )
          (h.apart (back x) (back y) (ground arith) (back-lt y (omega (arith, count-removed))));
  }

  -- The entries that remain, from the new indices and from the old ones.
  back_inside : (j : ℕ) → IsUser n' j → IsUser n (back j) × (back j ≢ i)
  back_inside j (low, high) =
      ((ground arith, ground (arith, count-removed)), λ e. ground (arith, e))

  forth : (j : ℕ) → IsUser n j → j ≢ i → (k : ℕ) × IsUser n' k × (back k ≡ j)
  forth j (low, high) other = elim (Bool-cases (ltb j i)) [
    | inl before ↦
        (j, (low, omega (arith, count-removed, user.1, under_of j i before)), ground arith)
    | inr behind ↦
        let over : i < j = ground arith in
        (j - 1, (omega (arith, user.0), omega (arith, count-removed)), ground arith)
  ]

  not_twice : (j : ℕ) → IsUser n j → j ≢ i → key_at n j ≢ key_at n i
  not_twice j u other same = elim (Bool-cases (ltb i j)) [
    | inl over ↦ gt_differs _ _ (h.ordered.ascending i j user.0 (ground arith) u.1) same
    | inr under ↦ gt_differs _ _ (h.ordered.ascending j i u.0 (ground arith) user.1) (sym same)
  ]

  gone : All IsByte (key_at n i) → value_of n' (key_at n i) ≡ none
  gone bytes = value_of_absent n' (key_at n i) removed-IsOrdered bytes λ j u same.
      let b = back_inside j u in
      not_twice (back j) b.0 b.1 (sym (same_entry j (omega (arith, count-removed, u.1))).1 ∙ same)

  other_kept : (t : List ℕ) → All IsByte t → t ≢ key_at n i → value_of n' t ≡ value_of n t
  other_kept t ht other = elim (key_cases n t h.ordered ht) [
    | inl (j, u, key) ↦
        let (k, uk, same) = forth j u (λ e. other (sym key ∙ ap (key_at n) e)) in
        let entry = same_entry k (omega (arith, count-removed, uk.1)) in
        value_of_found n' t removed-IsOrdered ht k uk (entry.1 ∙ ap (key_at n) same ∙ key)
        ∙ ap some (entry.2 ∙ ap (val_at n) same)
        ∙ sym (value_of_found n t h.ordered ht j u key)
    | inr none_is ↦
        value_of_absent n' t removed-IsOrdered ht (λ k uk key.
          none_is (back k) (back_inside k uk).0
            (sym (same_entry k (omega (arith, count-removed, uk.1))).1 ∙ key))
        ∙ sym (value_of_absent n t h.ordered ht none_is)
  ]

  taken_out-IsRemoved : IsRemoved n (key_at n i) n'
  taken_out-IsRemoved = record {
    node = removed-IsNode;
    gone = gone (h.ordered.bytes i user.0 user.1);
    others = other_kept;
  }

  shifted : shift_meta_left i n ≡ record n {
    page = move_bytes n.page (meta_addr (i + 1)) (meta_addr i) (kv_bytes * (count n - i - 1));
  }
  unfolding shift_meta_left
  shifted = let more : leb (count n) (i + 1) ≡ false = ground (arith, user.1) in rw more refl

  remove_entry-removed :
      ((j : ℕ) → j < count n → offset_at n i ≤ offset_at n j) → remove_entry i n ≡ some (n', true)
  unfolding remove_entry NodeMeta.dec_record_count
  remove_entry-removed lowest =
      let inside : leb (count n) i ≡ false = ground (arith, user.1) in
      let erased = erase_kv_in_buffer_of_lowest (get_kv_meta n i) n lowest in
      let some_left : (count n == 0) ≡ false = ground (arith, user.1) in
      rw (inside, h.user i user.0 user.1, erased, shifted, some_left, erased, shifted) refl

-- Taking out an entry whose bytes stand lowest, of a node that satisfies the invariant: the answer
-- is yes, the invariant holds afterwards, the key is gone, and all other keys have the values from
-- before.
pub remove_entry-IsRemoved :
    (n : Node) (i : ℕ)
    → IsNode n
    → IsUser n i
    → count n < 512
    → ((j : ℕ) → j < count n → offset_at n i ≤ offset_at n j)
    → (n' : Node) × (remove_entry i n ≡ some (n', true)) × IsRemoved n (key_at n i) n'
remove_entry-IsRemoved n i h user few lowest =
    (removed n i, remove_entry-removed n i h user few lowest, taken_out-IsRemoved n i h user few)
