-- ===== src/Db/Recovery/Records.antt =====
-- `collect_user_records`: the map that it makes of a leaf.
use quickstep.Base.{ℕ, zero, suc, ◌+◌, ◌-◌, ◌≤◌, ◌≡◌, inl, inr, refl, ap, sym, ◌∙◌}
use quickstep.Base.{arith, Bool-cases, ltb, List, [], ◌∷◌, ◌++◌, true, false, none, All}
use quickstep.Base.Bytes.{IsByte}
use quickstep.Base.Order.{compare_bytes, compare_bytes-eq, compare_bytes_refl}
use quickstep.Types.RecordType.{RecordType, exists}
use quickstep.Types.KvMeta
use quickstep.Node.{Node, count, get_kv_meta, entries, entries_from, get_node_prefix}
use quickstep.Node.Search.Loop.{Ordering-cases}
use quickstep.Node.Search.Sorted.{key_at}
use quickstep.Node.Search.Lookup.{value_of, value_of_found, value_of_absent, key_cases, IsUser}
use quickstep.Node.Layout.{IsNode, val_at}
use quickstep.Node.Put.Replay.{Values, map_put, map_put_all, with_prefix}
use quickstep.PageOp.{live_entries, to_owned, from_entry, owned_entries, key_values}
use quickstep.Db.Recovery.{Entries, insert, to_map, collect_user_records}
use quickstep.Db.Recovery.Entries.{find, map_put_all-same, map_put_all-with_prefix, find-insert}

-- The entries from `i` on, `left` of them.
abbrev user_list : Node → ℕ → ℕ → List (List ℕ × List ℕ)
user_list n i zero = []
user_list n i (suc left) = (key_at n i, val_at n i) ∷ user_list n (i + 1) left

find-to_map :
    (es m : Entries) (t : List ℕ) → find t (to_map es m) ≡ map_put_all es (λ x. find x m) t
unfolding to_map map_put_all
find-to_map [] m t = refl
find-to_map ((k, v) ∷ es) m t =
    find-to_map es (insert k v m) t
    ∙ map_put_all-same es (λ x. find x (insert k v m)) (map_put k v (λ x. find x m)) t
        (find-insert k v t m)

exists_all : (t : RecordType) → exists t ≡ true
unfolding exists
exists_all t = ground arith

module _ (n : Node) (h : IsNode n) where
  live_from :
      (p : List ℕ) (left i : ℕ)
      → 1 ≤ i
      → i + suc left ≡ count n
      → key_values (to_owned p (live_entries (entries_from (suc left) i n)))
        ≡ with_prefix p (user_list n i left)
  unfolding entries_from live_entries to_owned key_values from_entry with_prefix
  live_from p zero i low end =
      let last : KvMeta.fence (get_kv_meta n i) ≡ true =
        ap (λ j. KvMeta.fence (get_kv_meta n j)) (omega (arith, end)) ∙ h.ordered.upper_fence in
      rw (exists_all (KvMeta.typ (get_kv_meta n i)), last) refl
  live_from p (suc left) i low end =
      let inner : KvMeta.fence (get_kv_meta n i) ≡ false = h.user i low (omega (arith, end)) in
      let rest = live_from p left (i + 1) (omega arith) (omega (arith, end)) in
      rw (exists_all (KvMeta.typ (get_kv_meta n i)), inner)
        (ap (λ l. (p ++ key_at n i, val_at n i) ∷ l) rest)

  live_all :
      (m : ℕ)
      → suc (suc m) ≡ count n
      → collect_user_records n ≡ with_prefix (get_node_prefix n) (user_list n 1 m)
  unfolding collect_user_records owned_entries entries live_entries to_owned key_values entries_from
  live_all m total =
      rw (sym total, exists_all (KvMeta.typ (get_kv_meta n 0)), h.ordered.lower_fence)
        (live_from (get_node_prefix n) m 1 (omega arith) (omega (arith, total)))

  module _ (t : List ℕ) (ht : All IsByte t) where
    put_here :
        (i : ℕ) (f : Values)
        → IsUser n i
        → key_at n i ≡ t
        → map_put (key_at n i) (val_at n i) f t ≡ value_of n t
    unfolding map_put
    put_here i f user same =
        rw (ap (compare_bytes t) same ∙ compare_bytes_refl t, map_put)
          (sym (value_of_found n t h.ordered ht i user same))

    put_keeps :
        (i : ℕ) (f : Values)
        → IsUser n i
        → f t ≡ value_of n t
        → map_put (key_at n i) (val_at n i) f t ≡ value_of n t
    unfolding map_put
    put_keeps i f user here = elim (Ordering-cases (compare_bytes t (key_at n i))) [
      | inl less ↦ rw (less, map_put) here
      | inr (inl same) ↦ put_here i f user (sym (compare_bytes-eq t (key_at n i) same))
      | inr (inr more) ↦ rw (more, map_put) here
    ]

    -- Once the value is there it stays.
    stays :
        (left i : ℕ) (f : Values)
        → 1 ≤ i
        → i + left ≡ count n - 1
        → f t ≡ value_of n t
        → map_put_all (user_list n i left) f t ≡ value_of n t
    unfolding map_put_all map_put
    stays zero i f low end here = here
    stays (suc left) i f low end here =
        stays left (i + 1) (map_put (key_at n i) (val_at n i) f) (omega arith) (omega (arith, end))
          (put_keeps i f (low, omega (arith, end)) here)

    comes :
        (left i j : ℕ) (f : Values)
        → 1 ≤ i
        → i + left ≡ count n - 1
        → i ≤ j
        → IsUser n j
        → key_at n j ≡ t
        → map_put_all (user_list n i left) f t ≡ value_of n t
    unfolding map_put_all map_put
    comes zero i j f low end order user same = absurd (omega (arith, end, user.1))
    comes (suc left) i j f low end order user same = elim (Bool-cases (ltb i j)) [
      | inl before ↦
          comes left (i + 1) j (map_put (key_at n i) (val_at n i) f) (omega arith)
            (omega (arith, end)) (ground (arith, before)) user same
      | inr reached ↦
          let here : i ≡ j = ground (arith, reached, order) in
          stays left (i + 1) (map_put (key_at n i) (val_at n i) f) (omega arith)
            (omega (arith, end))
            (put_here i f (low, omega (arith, end)) (ap (key_at n) here ∙ same))
    ]

    -- The values of the records of a leaf are those that the search finds.
    pub find-collect_user_records :
        find (get_node_prefix n ++ t) (to_map (collect_user_records n) []) ≡ value_of n t
    find-collect_user_records =
        let m = count n - 2 in
        let p = get_node_prefix n in
        let us = user_list n 1 m in
        let total : suc (suc m) ≡ count n = omega (arith, h.ordered.two) in
        let cut : 1 + m ≡ count n - 1 = omega (arith, h.ordered.two) in
        ap (λ l. find (p ++ t) (to_map l [])) (live_all m total)
        ∙ find-to_map (with_prefix p us) [] (p ++ t)
        ∙ map_put_all-with_prefix p us (λ x. none) t
        ∙ elim (key_cases n t h.ordered ht) [
          | inl (j, user, same) ↦
              comes m 1 j (λ x. none) (omega arith) cut (omega (arith, user.0)) user same
          | inr absent ↦
              stays m 1 (λ x. none) (omega arith) cut
                (sym (value_of_absent n t h.ordered ht absent))
        ]
