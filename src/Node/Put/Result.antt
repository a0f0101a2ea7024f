-- ===== src/Node/Put/Result.antt =====
-- `try_put_with_suffix` against a map from keys to values.
use quickstep.Base.{ℕ, ◌+◌, ◌-◌, ◌*◌, ◌≤◌, ◌<◌, ◌≡◌, ◌≢◌, inl, inr, refl, ap, sym, ◌∙◌, arith}
use quickstep.Base.{List, some, true, false, Bool-cases, ltb, ◌==◌, length, All}
use quickstep.Base.Bytes.{IsByte}
use quickstep.Base.Memory.{write_bytes}
use quickstep.Types.KvMeta
use quickstep.Node.{Node, count, meta_addr, kv_bytes, set_kv_meta}
use quickstep.Node.Search.{missing}
use quickstep.Node.Search.Sorted.{IsPlace, key_at}
use quickstep.Node.Search.Lookup.{value_of, IsUser, value_of_found, value_of_absent, key_cases}
use quickstep.Node.Layout.{IsNode, offset_at}
use quickstep.Node.Put.{put_done, put_new, new_record_meta, find_min_offset, shift_meta_right}
use quickstep.Node.Put.{copy_record}
use quickstep.Node.Put.Insert.{IsRecord}
use quickstep.Node.Put.Insert.Invariant.{
  inserted, word_fields, index_cases, entry_before, entry_behind,
}
use quickstep.Node.Put.Insert.Invariant.{entry_new}
use quickstep.Node.Put.Kept.{inserted-IsNode, count-inserted}

copy_record_of_fits :
    (kv off : ℕ) (s val : List ℕ) (n : Node)
    → KvMeta.key_size kv ≡ length s
    → KvMeta.val_size kv ≡ length val
    → KvMeta.offset kv ≡ off
    → copy_record kv s val n
      ≡ put_done (record n { page = write_bytes (write_bytes n.page off s) (off + length s) val })
unfolding copy_record
copy_record_of_fits kv off s val n k v o =
    let keys : (length s == length s) ≡ true = ground arith in
    let values : (length val == length val) ≡ true = ground arith in rw (k, v, o, keys, values) refl

pub put_new-inserted :
    (n : Node) (p : ℕ) (s val : List ℕ) (m : ℕ)
    → find_min_offset n ≡ some m
    → meta_addr (count n) + (length s + length val) ≤ m
    → IsRecord s val (m - (length s + length val))
    → put_new p s val n ≡ put_done (inserted n p s val (m - (length s + length val)))
unfolding put_new copy_record set_kv_meta shift_meta_right
put_new-inserted n p s val m found_m room h =
    let off : ℕ = m - (length s + length val) in
    let fits : ltb m (length s + length val) ≡ false = ground arith in
    let behind : ltb off ((count n + 2) * kv_bytes) ≡ false = ground arith in
    let f = word_fields s val off h in
    rw (found_m, put_new)
      (rw (fits, behind) (copy_record_of_fits (new_record_meta s val off) off s val _ f.0 f.1 f.2))

-- The node afterwards holds the value at the key, and the values of all other keys as before.
pub record IsPut (n : Node) (s val : List ℕ) (n' : Node) : Type 0 where
  pub node : IsNode n'
  pub here : value_of n' s ≡ some val
  pub others : (t : List ℕ) → All IsByte t → t ≢ s → value_of n' t ≡ value_of n t

module _ (n : Node) (p : ℕ) (s val : List ℕ) (off : ℕ) (h : IsNode n) (hr : IsRecord s val off)
    (place : IsPlace n s (missing p)) (few : count n + 1 < 512)
    (room : meta_addr (count n + 1) ≤ off)
    (low : (i : ℕ) → i < count n → off + (length s + length val) ≤ offset_at n i) where
  abbrev n' : Node
  n' = inserted n p s val off

  kept : IsNode n'
  kept = inserted-IsNode n p s val off h hr place few room low

  many : count n' ≡ count n + 1
  many = count-inserted n p s val off h hr place few room low

  other_key : (t : List ℕ) → All IsByte t → t ≢ s → value_of n' t ≡ value_of n t
  other_key t ht other = elim (key_cases n t h.ordered ht) [
    | inl (i, (low_i, high_i), key) ↦ elim (Bool-cases (ltb i p)) [
      | inl front ↦
          let same = entry_before n p s val off h hr place few room low i (ground arith) in
          value_of_found n' t kept.ordered ht i (low_i, omega (arith, many)) (same.1 ∙ key)
          ∙ ap some same.2
          ∙ sym (value_of_found n t h.ordered ht i (low_i, high_i) key)
      | inr back ↦
          let same =
            entry_behind n p s val off h hr place few room low i (ground arith) (omega arith) in
          value_of_found n' t kept.ordered ht (i + 1) (omega arith, omega (arith, many))
            (same.1 ∙ key)
          ∙ ap some same.2
          ∙ sym (value_of_found n t h.ordered ht i (low_i, high_i) key)
    ]
    | inr none_is ↦
        value_of_absent n' t kept.ordered ht (still_absent t other none_is)
        ∙ sym (value_of_absent n t h.ordered ht none_is)
  ]
    where
      still_absent :
          (t' : List ℕ)
          → t' ≢ s
          → ((i : ℕ) → IsUser n i → key_at n i ≢ t')
          → (i : ℕ) → IsUser n' i
          → key_at n' i ≢ t'
      still_absent t' other' none_is i u key = elim (index_cases p i) [
        | inl front ↦
            none_is i (u.0, omega (arith, place.1))
              (sym (entry_before n p s val off h hr place few room low i front).1 ∙ key)
        | inr (inl new) ↦ other' (
            sym (
              sym (entry_new n p s val off h hr place few room low).1
              ∙ ap (key_at n') (sym new)
              ∙ key))
        | inr (inr (k, same, back)) ↦
            none_is k (omega (arith, place.0), omega (arith, u.1, many))
              (sym
                  (entry_behind n p s val off h hr place few room low k back
                    (omega (arith, u.1, many))).1
                ∙ ap (key_at n') (sym same)
                ∙ key)
      ]

  pub inserted-IsPut : IsPut n s val (inserted n p s val off)
  inserted-IsPut =
      let new = entry_new n p s val off h hr place few room low in
      record {
        node = kept;
        here =
            value_of_found n' s kept.ordered hr.bytes p (place.0, omega (arith, many, place.1))
              new.1
            ∙ ap some new.2;
        others = other_key;
      }
