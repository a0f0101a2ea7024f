-- ===== src/Node/Search/Get.antt =====
-- What `get` gives for a key with the prefix of the leaf.
use quickstep.Base.{ℕ, ◌≡◌, ◌≢◌, refl, List, ◌++◌, some, none, if◌then◌else◌, All}
use quickstep.Base.Bytes.{IsByte}
use quickstep.Types.RecordType.{exists}
use quickstep.Types.KvMeta
use quickstep.Node.{Node, get_kv_meta, get_node_prefix, get_val_from_meta}
use quickstep.Node.Search.{Found, found, missing, out_of_fuel, binary_search, get}
use quickstep.Node.Search.Sorted.{IsOrdered, IsPlace, binary_search-IsPlace, key_at}
use quickstep.Node.Search.Lookup.{IsUser, place_is_found}
use quickstep.Node.Put.Replay.{slice_from-append}

module _ (n : Node) (p t : List ℕ) (same : get_node_prefix n ≡ p) (h : IsOrdered n)
    (ht : All IsByte t) where
  pub get_found :
      (i : ℕ)
      → IsUser n i
      → key_at n i ≡ t
      → get n (p ++ t)
        ≡ some (
            if exists (KvMeta.typ (get_kv_meta n i))
            then some (get_val_from_meta n (get_kv_meta n i))
            else none)
  unfolding get
  get_found i u key =
      rw
        (
          same,
          slice_from-append p t,
          place_is_found n t h ht (binary_search n t) i (binary_search-IsPlace n t h ht) u key,
          get,
        )
        refl

  absent_in :
      (r : Found)
      → binary_search n t ≡ r
      → IsPlace n t r
      → ((i : ℕ) → IsUser n i → key_at n i ≢ t)
      → get n (p ++ t) ≡ some none
  unfolding get
  absent_in (found j) here (low, high, key) none_is = absurd (none_is j (low, high) key)
  absent_in (missing j) here place none_is = rw (same, slice_from-append p t, here, get) refl
  absent_in out_of_fuel here place none_is = absurd place

  pub get_absent : ((i : ℕ) → IsUser n i → key_at n i ≢ t) → get n (p ++ t) ≡ some none
  get_absent none_is = absent_in (binary_search n t) refl (binary_search-IsPlace n t h ht) none_is
