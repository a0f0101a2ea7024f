-- ===== src/Node/Fences/Installed.antt =====
-- A node after its fences were installed.
use quickstep.Base.{
  ℕ, zero, suc, ◌+◌, ◌-◌, ◌%◌, ◌^◌, ◌≤◌, ◌<◌, ◌≡◌, refl, ap, ap₂, ◌∙◌, inl, inr, arith,
}
use quickstep.Base.{List, some, true, false, ltb, length}
use quickstep.Base.Bytes.{length-to_le}
use quickstep.Base.Words.{IsU64}
use quickstep.Base.Memory.{read_bytes, write_bytes, read_bytes-write_bytes}
use quickstep.Base.Memory.{read_bytes-write_bytes_apart, IsApart}
use quickstep.Types.RecordType.{cache}
use quickstep.Types.KvMeta
use quickstep.Types.KvMeta.Layout
use quickstep.Types.KvMeta.Layout.{Fields, fields, fields-new, fields-set_offset}
use quickstep.Types.NodeSize.{NodeSize, size_in_bytes, size_in_words, index}
use quickstep.Types.NodeMeta
use quickstep.Types.NodeMeta.{NodeMeta}
use quickstep.Types.NodeMeta.Header
use quickstep.Types.NodeMeta.Header.{fields-set_record_count, set_record_count-IsU64}
use quickstep.Node.{
  Node, count, meta_addr, get_kv_meta, set_kv_meta, get_stored_key_from_meta, fence_bounds,
}
use quickstep.Node.Words.{word_at, word_at-write_same, word_at-write_other}
use quickstep.Node.Search.Sorted.{IsOrdered, key_at}
use quickstep.Node.Layout.{IsNode, offset_at, len_at}
use quickstep.Node.Fences.{install_fences, fence_meta, place_fences}

pub size_in_bytes-le : (s : NodeSize) → size_in_bytes s ≤ 4096
unfolding size_in_bytes size_in_words index
size_in_bytes-le s = ground arith

abbrev fence_fields : ℕ → ℕ → Fields
fence_fields len offset = record {
  key_size = len;
  val_size = 0;
  offset = offset;
  typ = cache;
  fence = true;
  ref_bit = true;
  look_ahead = 0;
}

fields-fence_meta :
    (len offset : ℕ)
    → len < 2 ^ 14
    → offset < 2 ^ 16
    → IsU64 (fence_meta len offset) × (fields (fence_meta len offset) ≡ fence_fields len offset)
fields-fence_meta len offset hl ho =
    let fresh = fields-new (fence_fields len 0) (record {
      key_size = hl;
      val_size = omega arith;
      offset = omega arith;
      look_ahead = omega arith;
    }) in
    let moved =
      fields-set_offset (KvMeta.new len 0 0 cache true true 0) (offset % 2 ^ 16) fresh.0
        (omega arith) in
    (moved.0, moved.1 ∙ ap₂ (λ (f : Fields) o. record f { offset = o }) fresh.1 (omega arith))

abbrev IsFenceWord : ℕ → ℕ → ℕ → Type 0
IsFenceWord len offset w =
    (KvMeta.key_size w ≡ len)
    × (KvMeta.val_size w ≡ 0)
    × (KvMeta.offset w ≡ offset)
    × (KvMeta.fence w ≡ true)

fence_word :
    (len offset : ℕ)
    → len < 2 ^ 14
    → offset < 2 ^ 16
    → IsFenceWord len offset (fence_meta len offset)
unfolding Layout.fields
fence_word len offset hl ho =
    let same = (fields-fence_meta len offset hl ho).1 in
    (
      ap (λ (f : Fields). f.key_size) same,
      ap (λ (f : Fields). f.val_size) same,
      ap (λ (f : Fields). f.offset) same,
      ap (λ (f : Fields). f.fence) same,
    )

module _ (lower upper : List ℕ) (n : Node) (at : ℕ) (header : IsU64 n.header.w0)
    (in_page : at + length upper ≤ 4096) (room : 32 + length lower ≤ at) where
  n' : Node
  n' = place_fences lower upper n at

  lower_at : ℕ
  lower_at = at - length lower

  pub count-placed : count (place_fences lower upper n at) ≡ 2
  unfolding Header.fields set_kv_meta
  count-placed = ap (λ (f : Header.Fields). f.count) (fields-set_record_count n.header 2 header)

  upper_word : get_kv_meta n' 1 ≡ fence_meta (length upper) at
  unfolding n' get_kv_meta set_kv_meta word_at
  upper_word =
      word_at-write_same _ 1 (fence_meta (length upper) at)
        (fields-fence_meta (length upper) at (omega arith) (omega arith)).0

  lower_word : get_kv_meta n' 0 ≡ fence_meta (length lower) (at - length lower)
  unfolding n' get_kv_meta set_kv_meta word_at
  lower_word =
      word_at-write_other _ 1 0 (fence_meta (length upper) at) (omega arith)
      ∙ word_at-write_same _ 0 (fence_meta (length lower) (at - length lower))
          (fields-fence_meta (length lower) (at - length lower) (omega arith) (omega arith)).0

  lower_facts : IsFenceWord (length lower) (at - length lower) (get_kv_meta n' 0)
  lower_facts =
      rw lower_word (fence_word (length lower) (at - length lower) (omega arith) (omega arith))

  upper_facts : IsFenceWord (length upper) at (get_kv_meta n' 1)
  upper_facts = rw upper_word (fence_word (length upper) at (omega arith) (omega arith))

  -- The bytes behind the two words.
  data_read :
      (len i : ℕ)
      → 32 ≤ i
      → read_bytes n'.page len i
        ≡ read_bytes (write_bytes (write_bytes n.page at upper) (at - length lower) lower) len i
  unfolding n' set_kv_meta
  data_read len i behind =
      read_bytes-write_bytes_apart _ (meta_addr 1) _ len i
        (inr (omega (arith, length-to_le 8 (fence_meta (length upper) at))))
      ∙ read_bytes-write_bytes_apart _ (meta_addr 0) _ len i
          (inr (omega (arith, length-to_le 8 (fence_meta (length lower) (at - length lower)))))

  lower_key : key_at n' 0 ≡ lower
  unfolding get_stored_key_from_meta
  lower_key =
      ap₂ (read_bytes n'.page) lower_facts.0 lower_facts.2
      ∙ data_read (length lower) (at - length lower) (omega arith)
      ∙ read_bytes-write_bytes _ (at - length lower) lower

  upper_key : key_at n' 1 ≡ upper
  unfolding get_stored_key_from_meta
  upper_key =
      ap₂ (read_bytes n'.page) upper_facts.0 upper_facts.2
      ∙ data_read (length upper) at (omega arith)
      ∙ read_bytes-write_bytes_apart _ (at - length lower) lower (length upper) at
          (inr (omega arith))
      ∙ read_bytes-write_bytes n.page at upper

  placed-IsOrdered : IsOrdered n'
  unfolding n'
  placed-IsOrdered = record {
    two = omega (arith, count-placed);
    lower_fence = lower_facts.3;
    upper_fence = ap (λ c. KvMeta.fence (get_kv_meta n' (c - 1))) count-placed ∙ upper_facts.3;
    ascending = λ i j low order high. absurd (omega (arith, count-placed));
    look_ahead = λ i low high. absurd (omega (arith, count-placed));
    bytes = λ i low high. absurd (omega (arith, count-placed));
  }

  -- Both entries are fences.
  each_fence {ℓ} : (P : ℕ → Type ℓ) → P 0 → P 1 → (i : ℕ) → i < count n' → P i
  unfolding n'
  each_fence P first second zero high = first
  each_fence P first second (suc zero) high = second
  each_fence P first second (suc (suc i)) high = absurd (omega (arith, count-placed))

  header_kept : IsU64 (place_fences lower upper n at).header.w0
  unfolding set_kv_meta
  header_kept = set_record_count-IsU64 n.header 2 header

  pub placed-IsNode : IsNode (place_fences lower upper n at)
  unfolding n'
  placed-IsNode = record {
    ordered = placed-IsOrdered;
    header = header_kept;
    words =
        each_fence (λ i. IsU64 (get_kv_meta n' i))
          (rw lower_word
            (fields-fence_meta (length lower) (at - length lower) (omega arith) (omega arith)).0)
          (rw upper_word (fields-fence_meta (length upper) at (omega arith) (omega arith)).0);
    user = λ i low high. absurd (omega (arith, count-placed));
    behind =
        each_fence (λ i. meta_addr (count n') ≤ offset_at n' i)
          (omega (arith, count-placed, lower_facts.2)) (omega (arith, count-placed, upper_facts.2));
    apart = λ i j order high.
        each_fence
          (λ y. i < y → IsApart (offset_at n' i) (len_at n' i) (offset_at n' y) (len_at n' y))
          (λ lt. absurd (omega arith))
          (λ lt.
            each_fence
              (λ x. x < 1 → IsApart (offset_at n' x) (len_at n' x) (offset_at n' 1) (len_at n' 1))
              (λ first.
                inl (omega (arith, lower_facts.0, lower_facts.1, lower_facts.2, upper_facts.2)))
              (λ second. absurd (omega arith)) i (omega arith) lt)
          j high order;
  }

  pub above_fences :
      (i : ℕ)
      → i < count (place_fences lower upper n at)
      → at - length lower ≤ offset_at (place_fences lower upper n at) i
  unfolding n'
  above_fences =
      each_fence (λ i. at - length lower ≤ offset_at n' i) (omega (arith, lower_facts.2))
        (omega (arith, upper_facts.2))

  pub placed-fence_bounds : fence_bounds (place_fences lower upper n at) ≡ (lower, upper)
  unfolding n' fence_bounds
  placed-fence_bounds =
      ap₂ (λ a b. (a, b)) lower_key (ap (λ c. key_at n' (c - 1)) count-placed ∙ upper_key)

-- Installing fences that fit the page beside the header and two words succeeds: the invariant holds
-- afterwards, the node has no other entries, and its fences are the given ones.
pub install_fences-IsNode :
    (lower upper : List ℕ) (n : Node) (size : NodeSize)
    → NodeMeta.size n.header ≡ some size
    → IsU64 n.header.w0
    → 32 + length lower + length upper ≤ size_in_bytes size
    → (n' : Node) × (install_fences lower upper n ≡ some n')
      × IsNode n'
      × (count n' ≡ 2)
      × (fence_bounds n' ≡ (lower, upper))
unfolding install_fences
install_fences-IsNode lower upper n size here header room =
    let at : ℕ = size_in_bytes size - length upper in
    let fits : ltb (size_in_bytes size) (length upper + length lower) ≡ false = ground arith in
    let inside : at + length upper ≤ 4096 = omega (arith, size_in_bytes-le size) in
    let free : 32 + length lower ≤ at = omega arith in
    (
      place_fences lower upper n at,
      rw (here, fits, install_fences) refl,
      placed-IsNode lower upper n at header inside free,
      count-placed lower upper n at header inside free,
      placed-fence_bounds lower upper n at header inside free,
    )
