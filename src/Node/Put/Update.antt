-- ===== src/Node/Put/Update.antt =====
-- A value is replaced by one of the same length; and all of `try_put_with_suffix`.
use quickstep.Base.{ℕ, ◌+◌, ◌-◌, ◌≤◌, ◌<◌, ◌≡◌, ◌≢◌, inl, inr, refl, ap, sym, subst, ◌∙◌, arith}
use quickstep.Base.{List, some, true, false, Bool-cases, ltb, ◌==◌, ==_iff, length, All}
use quickstep.Base.Bytes.{IsByte}
use quickstep.Base.Words.{IsU64}
use quickstep.Base.Memory.{read_bytes, write_bytes, IsApart, read_bytes-write_bytes}
use quickstep.Base.Memory.{read_bytes-write_bytes_apart}
use quickstep.Types.KvMeta
use quickstep.Node.{
  Node, count, meta_addr, get_kv_meta, get_val_from_meta, get_stored_key_from_meta, get_lookahead,
}
use quickstep.Node.Words.{word_at-write_behind}
use quickstep.Node.Search.Sorted.{IsOrdered, key_at}
use quickstep.Node.Search.Lookup.{value_of, IsUser, value_of_found, value_of_absent, key_cases}
use quickstep.Node.Layout.{IsNode, offset_at, len_at, val_at}
use quickstep.Node.Put.{put_done, put_existing}
use quickstep.Node.Put.Insert.Invariant.{get_kv_meta-word_at}
use quickstep.Node.Put.Result.{IsPut}

abbrev pub updated : Node → ℕ → List ℕ → Node
updated n i val = record n {
  page = write_bytes n.page (offset_at n i + KvMeta.key_size (get_kv_meta n i)) val;
}

pub put_existing-updated :
    (n : Node) (i : ℕ) (s val : List ℕ)
    → KvMeta.val_size (get_kv_meta n i) ≡ length val
    → put_existing i s val n ≡ put_done (updated n i val)
unfolding put_existing
put_existing-updated n i s val same =
    let equal : (KvMeta.val_size (get_kv_meta n i) == length val) ≡ true =
      (==_iff (KvMeta.val_size (get_kv_meta n i)) (length val)).1 same in
    rw equal refl

module _ (n : Node) (i : ℕ) (val : List ℕ) (h : IsNode n) (user : IsUser n i)
    (same : KvMeta.val_size (get_kv_meta n i) ≡ length val) where
  abbrev n' : Node
  n' = updated n i val

  word_kept : (j : ℕ) → j < count n → get_kv_meta n' j ≡ get_kv_meta n j
  word_kept j high =
      get_kv_meta-word_at n' j
      ∙ word_at-write_behind n.page _ val j (omega (arith, h.behind i (omega (arith, user.1))))
      ∙ sym (get_kv_meta-word_at n j)

  -- An entry's bytes against those of another one.
  away :
      (j : ℕ)
      → j < count n
      → j ≢ i
      → IsApart (offset_at n j) (len_at n j) (offset_at n i) (len_at n i)
  away j high other = elim (Bool-cases (ltb j i)) [
    | inl before ↦ h.apart j i (ground arith) (omega (arith, user.1))
    | inr behind ↦ elim (h.apart i j (ground arith) high) [ inl x ↦ inr x | inr x ↦ inl x ]
  ]

  key_kept : (j : ℕ) → j < count n → key_at n' j ≡ key_at n j
  unfolding get_stored_key_from_meta
  key_kept j high =
      ap (get_stored_key_from_meta n') (word_kept j high)
      ∙ read_bytes-write_bytes_apart n.page _ val _ _ (elim (Bool-cases (j == i)) [
        | inl here ↦ inl (
            omega (
              arith,
              ap (get_kv_meta n) ((==_iff j i).0 here),
              ap (offset_at n) ((==_iff j i).0 here),
              ap (λ x. KvMeta.key_size (get_kv_meta n x)) ((==_iff j i).0 here),
            ))
        | inr there ↦ elim (away j high (ground arith)) [
          | inl x ↦ inl (omega arith)
          | inr x ↦ inr (omega (arith, same))
        ]
      ])

  value_kept : (j : ℕ) → j < count n → j ≢ i → val_at n' j ≡ val_at n j
  unfolding get_val_from_meta
  value_kept j high other =
      ap (get_val_from_meta n') (word_kept j high)
      ∙ read_bytes-write_bytes_apart n.page _ val _ _ (elim (away j high other) [
        | inl x ↦ inl (omega arith)
        | inr x ↦ inr (omega (arith, same))
      ])

  value_new : val_at n' i ≡ val
  unfolding get_val_from_meta
  value_new =
      ap (get_val_from_meta n') (word_kept i (omega (arith, user.1)))
      ∙ ap (λ len. read_bytes n'.page len (offset_at n i + KvMeta.key_size (get_kv_meta n i))) same
      ∙ read_bytes-write_bytes n.page _ val

  -- A property of words and keys that all entries had, they have.
  carried {ℓ} :
      (P : ℕ → List ℕ → Type ℓ) (j : ℕ)
      → j < count n
      → P (get_kv_meta n j) (key_at n j)
      → P (get_kv_meta n' j) (key_at n' j)
  carried P j high old =
      subst (λ w. P w (key_at n' j)) (sym (word_kept j high))
        (subst (P (get_kv_meta n j)) (sym (key_kept j high)) old)

  updated-IsOrdered : IsOrdered n'
  updated-IsOrdered = record {
    two = h.ordered.two;
    lower_fence = ap KvMeta.fence (word_kept 0 (omega (arith, user.1))) ∙ h.ordered.lower_fence;
    upper_fence =
        ap KvMeta.fence (word_kept (count n - 1) (omega (arith, user.1))) ∙ h.ordered.upper_fence;
    ascending = λ x y low order high.
        rw (key_kept x (omega arith), key_kept y (omega arith))
          (h.ordered.ascending x y low order high);
    look_ahead = λ x low high.
        carried (λ w k. KvMeta.look_ahead w ≡ get_lookahead k) x (omega arith)
          (h.ordered.look_ahead x low high);
    bytes =
        λ x low high. carried (λ w k. All IsByte k) x (omega arith) (h.ordered.bytes x low high);
  }

  updated-IsNode : IsNode n'
  updated-IsNode = record {
    ordered = updated-IsOrdered;
    header = h.header;
    words = λ x high. carried (λ w k. IsU64 w) x high (h.words x high);
    user =
        λ x low high. carried (λ w k. KvMeta.fence w ≡ false) x (omega arith) (h.user x low high);
    behind =
        λ x high. carried (λ w k. meta_addr (count n) ≤ KvMeta.offset w) x high (h.behind x high);
    apart =
        λ x y order high. rw (word_kept x (omega arith), word_kept y high) (h.apart x y order high);
  }

  other_value : (t : List ℕ) → All IsByte t → t ≢ key_at n i → value_of n' t ≡ value_of n t
  other_value t ht other = elim (key_cases n t h.ordered ht) [
    | inl (j, u, key) ↦
        value_of_found n' t updated-IsOrdered ht j u (key_kept j (omega (arith, u.1)) ∙ key)
        ∙ ap some (value_kept j (omega (arith, u.1)) (λ e. other (sym key ∙ ap (key_at n) e)))
        ∙ sym (value_of_found n t h.ordered ht j u key)
    | inr none_is ↦
        value_of_absent n' t updated-IsOrdered ht
          (λ j u key. none_is j u (sym (key_kept j (omega (arith, u.1))) ∙ key))
        ∙ sym (value_of_absent n t h.ordered ht none_is)
  ]

  pub updated-IsPut : (s : List ℕ) → All IsByte s → key_at n i ≡ s → IsPut n s val (updated n i val)
  updated-IsPut s hs key = record {
    node = updated-IsNode;
    here =
        value_of_found n' s updated-IsOrdered hs i user (key_kept i (omega (arith, user.1)) ∙ key)
        ∙ ap some value_new;
    others = λ t ht other. other_value t ht (λ e. other (e ∙ key));
  }
