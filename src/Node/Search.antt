-- ===== src/Node/Search.antt =====
-- `binary_search`, by the look-ahead bytes first and then by the stored key.
pub mod Loop
pub mod Sorted
pub mod Lookup
pub mod Get
use quickstep.Base.{ℕ, zero, suc, ◌+◌, ◌-◌, ◌/◌, List, [], ◌∷◌, Bool, true, false, ◌&&◌}
use quickstep.Base.{Option, none, some, ◌==◌, ltb, leb, if◌then◌else◌, length, drop}
use quickstep.Base.Order.{compare_bytes}
use Prim.Native.Nat.{compare, Ordering}
use Ordering.{lt, eq, gt}
use quickstep.Types.RecordType.{exists}
use quickstep.Types.KvMeta
use quickstep.Node.{Node, count, get_kv_meta, get_stored_key_from_meta, get_val_from_meta}
use quickstep.Node.{get_node_prefix, get_lookahead, slice_from}

-- `Ok(index)` and `Err(index)`. The loop's fuel ran out in the third case.
pub data Found : Type 0 where
  found missing : ℕ → Found
  out_of_fuel : Found

-- The key against the entry at an index. The arms for a smaller and a larger look-ahead are those
-- for a smaller and a larger key.
unfoldable pub compare_at : Node → List ℕ → ℕ → Ordering
compare_at n key_suffix mid =
    let mid_kv = get_kv_meta n mid in
    elim (compare (get_lookahead key_suffix) (KvMeta.look_ahead mid_kv)) [
      | lt ↦ lt
      | eq ↦ compare_bytes key_suffix (get_stored_key_from_meta n mid_kv)
      | gt ↦ gt
    ]

-- The `while`, on the order of the key and each entry.
unfoldable pub search_loop : ℕ → (ℕ → Ordering) → ℕ → ℕ → Found
search_loop zero order lower upper = out_of_fuel
search_loop (suc fuel) order lower upper =
    let mid = lower + (upper - lower) / 2 in
    elim (ltb upper lower) [
      | true ↦ missing lower
      | false ↦ elim (order mid) [
        | lt ↦ elim (mid == 0) [
          | true ↦ missing lower
          | false ↦ search_loop fuel order lower (mid - 1)
        ]
        | eq ↦ found mid
        | gt ↦ search_loop fuel order (mid + 1) upper
      ]
    ]

unfoldable pub first_user : Node → ℕ
first_user n = if KvMeta.fence (get_kv_meta n 0) then 1 else 0

unfoldable pub last_user : Node → ℕ
last_user n =
    let upper = count n - 1 in if KvMeta.fence (get_kv_meta n upper) then upper - 1 else upper

-- Each round makes the range smaller, so one for each record and one for the end are enough.
unfoldable pub binary_search : Node → List ℕ → Found
binary_search n key_suffix =
    if leb (count n) 2
    then missing 1
    else search_loop (count n + 1) (compare_at n key_suffix) (first_user n) (last_user n)

-- `get`. The outer `none` is a panic: a key shorter than the prefix.
unfoldable pub get : Node → List ℕ → Option (Option (List ℕ))
get n key = elim (slice_from (length (get_node_prefix n)) key) [
  | none ↦ none
  | some suffix ↦ elim (binary_search n suffix) [
    | found idx ↦
        let target_kv = get_kv_meta n idx in
        some (if exists (KvMeta.typ target_kv) then some (get_val_from_meta n target_kv) else none)
    | missing idx ↦ some none
    | out_of_fuel ↦ none
  ]
]
