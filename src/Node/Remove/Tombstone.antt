-- ===== src/Node/Remove/Tombstone.antt =====
-- A tombstone does not hide the value.
use quickstep.Base.{
  ℕ, ◌+◌, ◌-◌, ◌≤◌, ◌<◌, ◌≡◌, ◌≢◌, inl, inr, refl, ap, ap₂, sym, subst, ◌∙◌, arith,
}
use quickstep.Base.{
  List, ◌++◌, some, none, if◌then◌else◌, true, false, Bool-cases, ◌==◌, ==_iff, All,
}
use quickstep.Base.Bytes.{IsByte, length-to_le}
use quickstep.Base.Words.{IsU64}
use quickstep.Base.Memory.{read_bytes, read_bytes-write_bytes_apart}
use quickstep.Types.RecordType.{tombstone, exists}
use quickstep.Types.KvMeta
use quickstep.Types.KvMeta.Layout.{Fields, fields, fields-set_record_type}
use quickstep.Node.{
  Node, count, meta_addr, get_kv_meta, set_kv_meta, get_val_from_meta, get_stored_key_from_meta,
}
use quickstep.Node.{get_lookahead}
use quickstep.Node.Words.{word_at, word_at-write_same, word_at-write_other}
use quickstep.Node.Search.Sorted.{IsOrdered, key_at}
use quickstep.Node.Search.Lookup.{IsUser, key_cases}
use quickstep.Node.Layout.{IsNode, val_at}
use quickstep.Node.Search.{get}
use quickstep.Node.Search.Get.{get_found, get_absent}
use quickstep.Node.{get_node_prefix, common_prefix, fence_bounds}
use quickstep.Node.Remove.{mark_entry_tombstone, is_tombstone}

module _ (n : Node) (i : ℕ) (h : IsNode n) (user : IsUser n i) where
  word : ℕ
  word = KvMeta.set_record_type (get_kv_meta n i) tombstone

  marked : Node
  marked = set_kv_meta n i (KvMeta.set_record_type (get_kv_meta n i) tombstone)

  type_set :
      IsU64 (KvMeta.set_record_type (get_kv_meta n i) tombstone)
      × (fields (KvMeta.set_record_type (get_kv_meta n i) tombstone)
          ≡ record (fields (get_kv_meta n i)) { typ = tombstone })
  type_set = fields-set_record_type (get_kv_meta n i) tombstone (h.words i (omega (arith, user.1)))

  word_here : get_kv_meta marked i ≡ KvMeta.set_record_type (get_kv_meta n i) tombstone
  unfolding marked get_kv_meta set_kv_meta word_at
  word_here = word_at-write_same n.page i _ type_set.0

  word_there : (j : ℕ) → j ≢ i → get_kv_meta marked j ≡ get_kv_meta n j
  unfolding marked get_kv_meta set_kv_meta word_at
  word_there j other = word_at-write_other n.page i j _ (λ e. other (sym e))

  -- All fields but the type are as before.
  same_fields :
      (j : ℕ)
      → (KvMeta.key_size (get_kv_meta marked j) ≡ KvMeta.key_size (get_kv_meta n j))
        × (KvMeta.val_size (get_kv_meta marked j) ≡ KvMeta.val_size (get_kv_meta n j))
        × (KvMeta.offset (get_kv_meta marked j) ≡ KvMeta.offset (get_kv_meta n j))
        × (KvMeta.fence (get_kv_meta marked j) ≡ KvMeta.fence (get_kv_meta n j))
        × (KvMeta.look_ahead (get_kv_meta marked j) ≡ KvMeta.look_ahead (get_kv_meta n j))
  unfolding fields
  same_fields j = elim (Bool-cases (j == i)) [
    | inl here ↦
        subst
          (λ x.
            (KvMeta.key_size (get_kv_meta marked x) ≡ KvMeta.key_size (get_kv_meta n x))
            × (KvMeta.val_size (get_kv_meta marked x) ≡ KvMeta.val_size (get_kv_meta n x))
            × (KvMeta.offset (get_kv_meta marked x) ≡ KvMeta.offset (get_kv_meta n x))
            × (KvMeta.fence (get_kv_meta marked x) ≡ KvMeta.fence (get_kv_meta n x))
            × (KvMeta.look_ahead (get_kv_meta marked x) ≡ KvMeta.look_ahead (get_kv_meta n x)))
          (sym ((==_iff j i).0 here))
          (
            ap KvMeta.key_size word_here ∙ ap (λ (f : Fields). f.key_size) type_set.1,
            ap KvMeta.val_size word_here ∙ ap (λ (f : Fields). f.val_size) type_set.1,
            ap KvMeta.offset word_here ∙ ap (λ (f : Fields). f.offset) type_set.1,
            ap KvMeta.fence word_here ∙ ap (λ (f : Fields). f.fence) type_set.1,
            ap KvMeta.look_ahead word_here ∙ ap (λ (f : Fields). f.look_ahead) type_set.1,
          )
    | inr there ↦
        let same = word_there j (ground arith) in
        (
          ap KvMeta.key_size same,
          ap KvMeta.val_size same,
          ap KvMeta.offset same,
          ap KvMeta.fence same,
          ap KvMeta.look_ahead same,
        )
  ]

  read_kept :
      (len from : ℕ)
      → meta_addr (count n) ≤ from
      → read_bytes marked.page len from ≡ read_bytes n.page len from
  unfolding marked set_kv_meta
  read_kept len from behind = read_bytes-write_bytes_apart n.page (meta_addr i) _ len from (
      inr (
        omega (arith, user.1, length-to_le 8 (KvMeta.set_record_type (get_kv_meta n i) tombstone))))

  key_kept : (j : ℕ) → j < count n → key_at marked j ≡ key_at n j
  unfolding get_stored_key_from_meta
  key_kept j high =
      let f = same_fields j in
      ap₂ (read_bytes marked.page) f.0 f.2 ∙ read_kept _ _ (h.behind j high)

  value_kept : (j : ℕ) → j < count n → val_at marked j ≡ val_at n j
  unfolding get_val_from_meta
  value_kept j high =
      let f = same_fields j in
      ap₂ (read_bytes marked.page) f.1 (ap₂ (λ x y. x + y) f.2 f.0)
      ∙ read_kept _ _ (omega (arith, h.behind j high))

  marked-IsOrdered : IsOrdered marked
  unfolding marked set_kv_meta
  marked-IsOrdered = record {
    two = h.ordered.two;
    lower_fence = (same_fields 0).3 ∙ h.ordered.lower_fence;
    upper_fence = (same_fields (count n - 1)).3 ∙ h.ordered.upper_fence;
    ascending = λ x y low order high.
        rw (key_kept x (omega arith), key_kept y (omega arith))
          (h.ordered.ascending x y low order high);
    look_ahead = λ x low high.
        (same_fields x).4
        ∙ h.ordered.look_ahead x low high
        ∙ ap get_lookahead (sym (key_kept x (omega arith)));
    bytes = λ x low high.
        subst (All IsByte) (sym (key_kept x (omega arith))) (h.ordered.bytes x low high);
  }

  words_kept : (j : ℕ) → j < count n → IsU64 (get_kv_meta marked j)
  words_kept j high = elim (Bool-cases (j == i)) [
    | inl here ↦
        subst (λ x. IsU64 (get_kv_meta marked x)) (sym ((==_iff j i).0 here))
          (subst IsU64 (sym word_here) type_set.0)
    | inr there ↦ subst IsU64 (sym (word_there j (ground arith))) (h.words j high)
  ]

  marked-IsNode : IsNode marked
  unfolding marked set_kv_meta
  marked-IsNode = record {
    ordered = marked-IsOrdered;
    header = h.header;
    words = words_kept;
    user = λ x low high. (same_fields x).3 ∙ h.user x low high;
    behind =
        λ x high. subst (λ o. meta_addr (count n) ≤ o) (sym (same_fields x).2) (h.behind x high);
    apart = λ x y order high.
        let fx = same_fields x in
        let fy = same_fields y in rw (fx.0, fx.1, fx.2, fy.0, fy.1, fy.2) (h.apart x y order high);
  }

  type_here : KvMeta.typ (get_kv_meta marked i) ≡ tombstone
  unfolding fields
  type_here = ap KvMeta.typ word_here ∙ ap (λ (f : Fields). f.typ) type_set.1

  same_prefix : get_node_prefix marked ≡ get_node_prefix n
  unfolding get_node_prefix fence_bounds marked set_kv_meta
  same_prefix =
      ap₂ common_prefix (key_kept 0 (omega (arith, h.ordered.two)))
        (key_kept (count n - 1) (omega (arith, h.ordered.two)))

  get_here : get marked (get_node_prefix n ++ key_at n i) ≡ some (some (val_at n i))
  unfolding exists marked set_kv_meta
  get_here =
      let inside : i < count n = omega (arith, user.1) in
      get_found marked (get_node_prefix n) (key_at n i) same_prefix marked-IsOrdered
        (h.ordered.bytes i user.0 user.1) i user (key_kept i inside)
      ∙ rw type_here (ap (λ v. some (some v)) (value_kept i inside))

  get_there :
      (t : List ℕ)
      → All IsByte t
      → t ≢ key_at n i
      → get marked (get_node_prefix n ++ t) ≡ get n (get_node_prefix n ++ t)
  unfolding marked set_kv_meta
  get_there t ht other = elim (key_cases n t h.ordered ht) [
    | inl (j, u, key) ↦
        let inside : j < count n = omega (arith, u.1) in
        let word : get_kv_meta marked j ≡ get_kv_meta n j =
          word_there j (λ same. other (sym key ∙ ap (key_at n) same)) in
        get_found marked (get_node_prefix n) t same_prefix marked-IsOrdered ht j u
          (key_kept j inside ∙ key)
        ∙ ap₂ (λ w v. some (if exists (KvMeta.typ w) then some v else none)) word
            (value_kept j inside)
        ∙ sym (get_found n (get_node_prefix n) t refl h.ordered ht j u key)
    | inr none_is ↦
        get_absent marked (get_node_prefix n) t same_prefix marked-IsOrdered ht
          (λ j u key. none_is j u (sym (key_kept j (omega (arith, u.1))) ∙ key))
        ∙ sym (get_absent n (get_node_prefix n) t refl h.ordered ht none_is)
  ]

  mark-marked :
      is_tombstone (KvMeta.typ (get_kv_meta n i)) ≡ false
      → mark_entry_tombstone i n ≡ (marked, true)
  unfolding mark_entry_tombstone marked
  mark-marked live = rw (h.user i user.0 user.1, live) refl

-- An entry of a node that satisfies the invariant is marked: the invariant holds afterwards and the
-- type of the entry is the tombstone, but `get` still finds its key, and gives the value of the entry,
-- since a tombstone exists. For all other keys with the prefix of the node `get` gives what it gave.
pub mark_entry_tombstone-get :
    (n : Node) (i : ℕ)
    → IsNode n
    → IsUser n i
    → is_tombstone (KvMeta.typ (get_kv_meta n i)) ≡ false
    → (n' : Node) × (mark_entry_tombstone i n ≡ (n', true))
      × IsNode n'
      × (KvMeta.typ (get_kv_meta n' i) ≡ tombstone)
      × (get n' (get_node_prefix n ++ key_at n i) ≡ some (some (val_at n i)))
      × ((t : List ℕ)
          → All IsByte t
          → t ≢ key_at n i
          → get n' (get_node_prefix n ++ t) ≡ get n (get_node_prefix n ++ t))
mark_entry_tombstone-get n i h user live = (
  marked n i h user,
  mark-marked n i h user live,
  marked-IsNode n i h user,
  type_here n i h user,
  get_here n i h user,
  get_there n i h user,
)
