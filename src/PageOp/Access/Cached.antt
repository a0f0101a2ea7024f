-- ===== src/PageOp/Access/Cached.antt =====
-- A page that is read through its mini-page, and read after it was written.
use quickstep.Base.{ℕ, ◌+◌, ◌-◌, ◌≤◌, ◌≡◌, ◌≢◌, refl, ap, sym, subst, ◌∙◌, inl, inr, arith}
use quickstep.Base.{List, ◌++◌, Option, none, some, true, false, All, length, ◌==◌}
use quickstep.Base.Bytes.{IsByte}
use quickstep.Types.RecordType.{RecordType, exists}
use quickstep.Types.KvMeta
use quickstep.Types.NodeMeta
use quickstep.Types.NodeMeta.Header.{mark_hot-IsU64, record_count-mark_hot}
use quickstep.MapTable.Entry.{mini_page}
use quickstep.Node.{Node, count, get_node_prefix, fence_bounds, get_kv_meta, get_val_from_meta}
use quickstep.Node.{meta_addr, get_stored_key_from_meta}
use quickstep.Node.Search.{Found, found, missing, out_of_fuel, binary_search}
use quickstep.Node.Search.Sorted.{IsOrdered, IsPlace, binary_search-IsPlace, key_at}
use quickstep.Node.Search.Lookup.{value_of, value_of_found, value_of_absent, key_cases}
use quickstep.Node.Layout.{IsNode}
use quickstep.Node.Put.Room.{IsAbove, try_put_with_suffix-IsPutIn}
use quickstep.Node.Put.Replay.{slice_from-append, try_put_prefixed, prefix_kept}
use quickstep.PageOp.Access.{Read, page_get, get_leaf, ensure_page, set_node, page_try_put, success}

exists_always : (t : RecordType) → exists t ≡ true
unfolding exists
exists_always t = ground arith

-- What a read of the suffix gives: the value in the mini-page, or else what the leaf on disk gives.
abbrev pub read_through : Option (List ℕ) → Option Node → Option Read → Option Read
read_through (some val) held below = some (some val, held)
read_through none held below = below

module _ (get_page cache : ℕ → Node) (i : ℕ) (held : Option Node) (p s : List ℕ)
    (h : IsNode (cache i)) (same : get_node_prefix (cache i) ≡ p) (hs : All IsByte s) where
  read_at :
      (r : Found)
      → binary_search (cache i) s ≡ r
      → IsPlace (cache i) s r
      → page_get get_page (mini_page i) cache held (p ++ s)
        ≡ read_through
            (value_of (cache i) s)
            held
            (get_leaf (ensure_page get_page held (NodeMeta.leaf (cache i).header)) (p ++ s))
  unfolding page_get
  read_at (found at) here place =
      let val : List ℕ = get_val_from_meta (cache i) (get_kv_meta (cache i) at) in
      let there : value_of (cache i) s ≡ some val = rw (here, value_of) refl in
      rw
        (
          there,
          same,
          slice_from-append p s,
          here,
          exists_always (KvMeta.typ (get_kv_meta (cache i) at)),
          page_get,
        )
        refl
  read_at (missing at) here place =
      let nowhere : value_of (cache i) s ≡ none = rw (here, value_of) refl in
      rw (nowhere, same, slice_from-append p s, here, page_get) refl
  read_at out_of_fuel here place = absurd place

  -- A key with the prefix of a mini-page that satisfies the invariant: the read gives the value that
  -- the mini-page has for the rest of the key, with the leaf untouched; without one it gives what
  -- the leaf on disk gives.
  pub page_get-read_through :
      page_get get_page (mini_page i) cache held (p ++ s)
      ≡ read_through
          (value_of (cache i) s)
          held
          (get_leaf (ensure_page get_page held (NodeMeta.leaf (cache i).header)) (p ++ s))
  page_get-read_through =
      read_at (binary_search (cache i) s) refl (binary_search-IsPlace (cache i) s h.ordered hs)

set_node_same : (cache : ℕ → Node) (i : ℕ) (n : Node) → set_node cache i n i ≡ n
unfolding set_node
set_node_same cache i n = let same : (i == i) ≡ true = ground arith in rw same refl

set_node_other : (cache : ℕ → Node) (i j : ℕ) (n : Node) → j ≢ i → set_node cache i n j ≡ cache j
unfolding set_node
set_node_other cache i j n other = let differ : (j == i) ≡ false = ground arith in rw differ refl

-- Marking a page hot changes no entry.
module _ (n : Node) (h : IsNode n) where
  hot : Node
  hot = record n { header = NodeMeta.mark_hot n.header }

  same_count : count (record n { header = NodeMeta.mark_hot n.header }) ≡ count n
  same_count = record_count-mark_hot n.header

  hot-IsOrdered : IsOrdered (record n { header = NodeMeta.mark_hot n.header })
  unfolding get_kv_meta get_stored_key_from_meta
  hot-IsOrdered = record {
    two = omega (arith, same_count, h.ordered.two);
    lower_fence = h.ordered.lower_fence;
    upper_fence = ap (λ c. KvMeta.fence (get_kv_meta n (c - 1))) same_count ∙ h.ordered.upper_fence;
    ascending = λ x y low order high. h.ordered.ascending x y low order (omega (arith, same_count));
    look_ahead = λ x low high. h.ordered.look_ahead x low (omega (arith, same_count));
    bytes = λ x low high. h.ordered.bytes x low (omega (arith, same_count));
  }

  pub hot-IsNode : IsNode (record n { header = NodeMeta.mark_hot n.header })
  unfolding get_kv_meta
  hot-IsNode = record {
    ordered = hot-IsOrdered;
    header = mark_hot-IsU64 n.header h.header;
    words = λ x high. h.words x (omega (arith, same_count));
    user = λ x low high. h.user x low (omega (arith, same_count));
    behind = λ x high. omega (arith, same_count, h.behind x (omega (arith, same_count)));
    apart = λ x y order high. h.apart x y order (omega (arith, same_count));
  }

  pub hot_value_of :
      (t : List ℕ)
      → All IsByte t
      → value_of (record n { header = NodeMeta.mark_hot n.header }) t ≡ value_of n t
  unfolding get_kv_meta get_stored_key_from_meta get_val_from_meta
  hot_value_of t ht = elim (key_cases n t h.ordered ht) [
    | inl (j, u, key) ↦
        value_of_found (record n { header = NodeMeta.mark_hot n.header }) t hot-IsOrdered ht j
          (u.0, omega (arith, same_count, u.1)) key
        ∙ sym (value_of_found n t h.ordered ht j u key)
    | inr none_is ↦
        value_of_absent (record n { header = NodeMeta.mark_hot n.header }) t hot-IsOrdered ht
          (λ j u key. none_is j (u.0, omega (arith, same_count, u.1)) key)
        ∙ sym (value_of_absent n t h.ordered ht none_is)
  ]

  pub hot_fence_bounds :
      fence_bounds (record n { header = NodeMeta.mark_hot n.header }) ≡ fence_bounds n
  unfolding fence_bounds get_kv_meta get_stored_key_from_meta
  hot_fence_bounds = ap (λ c. (key_at n 0, key_at n (c - 1))) same_count

abbrev written_page : (ℕ → Node) → ℕ → Node → ℕ → Node
written_page cache i n = set_node cache i (record n { header = NodeMeta.mark_hot n.header })

-- Reading after writing, on a mini-page that satisfies the invariant, with its records at the bound
-- `b` or above it, for a key with its prefix whose rest is new to it and fits below `b`: the write
-- succeeds, the read gives the value and leaves the leaf untouched, the page satisfies the invariant
-- and has all other values as before, and the other pages are the same.
pub page_get-page_try_put :
    (get_page cache : ℕ → Node) (i b : ℕ) (held : Option Node) (p s val : List ℕ)
    → IsNode (cache i)
    → get_node_prefix (cache i) ≡ p
    → All IsByte s
    → value_of (cache i) s ≡ none
    → IsAbove b (cache i)
    → b ≤ 4096
    → meta_addr (count (cache i) + 1) + (length s + length val) ≤ b
    → (cache' : ℕ → Node) × (page_try_put (mini_page i) cache (p ++ s) val ≡ some (success, cache'))
      × (page_get get_page (mini_page i) cache' held (p ++ s) ≡ some (some val, held))
      × IsNode (cache' i)
      × ((t : List ℕ) → All IsByte t → t ≢ s → value_of (cache' i) t ≡ value_of (cache i) t)
      × ((j : ℕ) → j ≢ i → cache' j ≡ cache j)
unfolding page_try_put
page_get-page_try_put get_page cache i b held p s val h same hs new above in_page room =
    let (n₁, puts, done) =
      try_put_with_suffix-IsPutIn (cache i) s val b h hs above in_page room new in
    let cache' : ℕ → Node = written_page cache i n₁ in
    let here : cache' i ≡ record n₁ { header = NodeMeta.mark_hot n₁.header } =
      set_node_same cache i _ in
    let node : IsNode (cache' i) = subst IsNode (sym here) (hot-IsNode n₁ done.put.node) in
    let at_page : (t : List ℕ) → All IsByte t → value_of (cache' i) t ≡ value_of n₁ t =
      λ t ht. ap (λ m. value_of m t) here ∙ hot_value_of n₁ done.put.node t ht in
    let bounds : fence_bounds (cache' i) ≡ fence_bounds (cache i) =
      ap fence_bounds here ∙ hot_fence_bounds n₁ done.put.node ∙ done.bounds in
    let reads =
      page_get-read_through get_page cache' i held p s node
        (prefix_kept (cache i) (cache' i) bounds ∙ same) hs in
    (
      cache',
      rw (try_put_prefixed p s val (cache i) same ∙ puts, page_try_put) refl,
      reads
          ∙ ap
              (λ v.
                read_through v held
                  (get_leaf (ensure_page get_page held (NodeMeta.leaf (cache' i).header)) (p ++ s)))
              (at_page s hs ∙ done.put.here),
      node,
      λ t ht other. at_page t ht ∙ done.put.others t ht other,
      λ j other. set_node_other cache i j _ other,
    )
