-- ===== src/Node/Put/Insert/Invariant.antt =====
-- The invariant of a node after a new entry.
use quickstep.Base.{ℕ, ◌+◌, ◌-◌, ◌≤◌, ◌<◌, ◌≡◌, ◌⊎◌, inl, inr, refl, ap, ap₂, sym, ◌∙◌, arith}
use quickstep.Base.{List, false, Bool-cases, ltb, ◌==◌, ==_iff, length}
use quickstep.Base.Words.{IsU64}
use quickstep.Base.Memory.{read_bytes}
use quickstep.Types.RecordType.{insert}
use quickstep.Types.KvMeta
use quickstep.Types.KvMeta.Layout
use quickstep.Types.NodeMeta
use quickstep.Types.NodeMeta.{NodeMeta}
use quickstep.Types.NodeMeta.Header
use quickstep.Types.NodeMeta.Header.{fields-set_record_count, set_record_count-IsU64}
use quickstep.Node.{
  Node, count, meta_addr, get_kv_meta, get_stored_key_from_meta, get_val_from_meta,
}
use quickstep.Node.{get_lookahead}
use quickstep.Node.Words.{word_at}
use quickstep.Node.Search.{missing}
use quickstep.Node.Search.Sorted.{IsPlace, key_at}
use quickstep.Node.Layout.{IsNode, IsSameEntry, offset_at, val_at}
use quickstep.Node.Put.{new_record_meta}
use quickstep.Node.Put.Insert.{IsRecord, fields-new_record_meta, inserted_page, word_at-new}
use quickstep.Node.Put.Insert.{word_at-before, word_at-behind, read_bytes-behind, read_bytes-key}
use quickstep.Node.Put.Insert.{read_bytes-value}

abbrev pub inserted : Node → ℕ → List ℕ → List ℕ → ℕ → Node
inserted n p s val off = record {
  header = NodeMeta.inc_record_count n.header;
  page = inserted_page n.page p (count n) s val off;
}

pub count-inc :
    (m : NodeMeta)
    → IsU64 m.w0
    → NodeMeta.record_count m + 1 < 512
    → (NodeMeta.record_count (NodeMeta.inc_record_count m) ≡ NodeMeta.record_count m + 1)
      × IsU64 (NodeMeta.inc_record_count m).w0
unfolding NodeMeta.inc_record_count Header.fields
count-inc m h few = (
  ap (λ (f : Header.Fields). f.count) (fields-set_record_count m (NodeMeta.record_count m + 1) h)
      ∙ omega arith,
  set_record_count-IsU64 m (NodeMeta.record_count m + 1) h,
)

pub word_fields :
    (s val : List ℕ) (off : ℕ)
    → IsRecord s val off
    → let w = new_record_meta s val off in
      (KvMeta.key_size w ≡ length s)
      × (KvMeta.val_size w ≡ length val)
      × (KvMeta.offset w ≡ off)
      × (KvMeta.typ w ≡ insert)
      × (KvMeta.fence w ≡ false)
      × (KvMeta.look_ahead w ≡ get_lookahead s)
unfolding Layout.fields
word_fields s val off h =
    let same = (fields-new_record_meta s val off h).1 in
    (
      ap (λ (f : Layout.Fields). f.key_size) same,
      ap (λ (f : Layout.Fields). f.val_size) same,
      ap (λ (f : Layout.Fields). f.offset) same,
      ap (λ (f : Layout.Fields). f.typ) same,
      ap (λ (f : Layout.Fields). f.fence) same,
      ap (λ (f : Layout.Fields). f.look_ahead) same,
    )

-- An index in front of the place, at it, or behind it.
pub index_cases : (p i : ℕ) → (i < p) ⊎ ((i ≡ p) ⊎ ((k : ℕ) × (i ≡ k + 1) × (p ≤ k)))
index_cases p i = elim (Bool-cases (ltb i p)) [
  | inl before ↦ inl (ground arith)
  | inr other ↦ elim (Bool-cases (i == p)) [
    | inl same ↦ inr (inl ((==_iff i p).0 same))
    | inr behind ↦ inr (inr (i - 1, ground arith, ground arith))
  ]
]

pub get_kv_meta-word_at : (n : Node) (i : ℕ) → get_kv_meta n i ≡ word_at n.page i
unfolding get_kv_meta word_at
get_kv_meta-word_at n i = refl

module _ (n : Node) (p : ℕ) (s val : List ℕ) (off : ℕ) (h : IsNode n) (hr : IsRecord s val off)
    (place : IsPlace n s (missing p)) (few : count n + 1 < 512)
    (room : meta_addr (count n + 1) ≤ off)
    (low : (i : ℕ) → i < count n → off + (length s + length val) ≤ offset_at n i) where
  n' : Node
  n' = inserted n p s val off

  many : count n' ≡ count n + 1
  unfolding n'
  many = (count-inc n.header h.header few).0

  at_place : p ≤ count n
  at_place = omega (arith, place.1)

  -- An old word at a new index comes with its key and its value.
  same_entry : (i j : ℕ) → i < count n → get_kv_meta n' j ≡ get_kv_meta n i → IsSameEntry n i n' j
  unfolding n' get_stored_key_from_meta get_val_from_meta
  same_entry i j high same = (
    same,
    ap (get_stored_key_from_meta n') same
        ∙ read_bytes-behind n.page p (count n) s val off hr at_place room _ _ (low i high),
    ap (get_val_from_meta n') same
        ∙ read_bytes-behind n.page p (count n) s val off hr at_place room _ _
            (omega (arith, low i high)),
  )

  pub entry_before : (i : ℕ) → i < p → IsSameEntry n i (inserted n p s val off) i
  unfolding n'
  entry_before i before = same_entry i i (omega (arith, at_place)) (
      get_kv_meta-word_at n' i
      ∙ word_at-before n.page p (count n) s val off hr at_place room i before
      ∙ sym (get_kv_meta-word_at n i))

  pub entry_behind :
      (i : ℕ) → p ≤ i → i < count n → IsSameEntry n i (inserted n p s val off) (i + 1)
  unfolding n'
  entry_behind i behind high = same_entry i (i + 1) high (
      get_kv_meta-word_at n' (i + 1)
      ∙ word_at-behind n.page p (count n) s val off hr at_place room i behind high
      ∙ sym (get_kv_meta-word_at n i))

  pub entry_new :
      (get_kv_meta (inserted n p s val off) p ≡ new_record_meta s val off)
      × (key_at (inserted n p s val off) p ≡ s)
      × (val_at (inserted n p s val off) p ≡ val)
  unfolding n' get_stored_key_from_meta get_val_from_meta
  entry_new =
      let word : get_kv_meta n' p ≡ new_record_meta s val off =
        get_kv_meta-word_at n' p ∙ word_at-new n.page p (count n) s val off hr at_place room in
      let f = word_fields s val off hr in
      (
        word,
        ap (get_stored_key_from_meta n') word
            ∙ ap₂ (read_bytes n'.page) f.0 f.2
            ∙ read_bytes-key n.page p (count n) s val off hr at_place room,
        ap (get_val_from_meta n') word
            ∙ ap₂ (read_bytes n'.page) f.1 (ap₂ (λ x y. x + y) f.2 f.0)
            ∙ read_bytes-value n.page p (count n) s val off hr at_place room,
      )
