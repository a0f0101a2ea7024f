-- ===== src/BTree/Append/Room.antt =====
-- An append to a node that has room for it.
use quickstep.Base.{
  ℕ, ◌+◌, ◌-◌, ◌*◌, ◌%◌, ◌^◌, ◌≤◌, ◌<◌, ◌≡◌, ◌⊎◌, refl, ap, ap₂, sym, ◌∙◌, inl, inr, arith,
}
use quickstep.Base.{
  List, [], none, some, true, false, length, ltb, ◌==◌, if◌then◌else◌, append-nil, Bool-cases,
  ==_iff,
}
use quickstep.Base.Bytes.{to_le, from_le, length-to_le, from_le-to_le}
use quickstep.Base.Memory.{Memory, read_bytes, write_bytes, read_bytes-write_bytes}
use quickstep.Base.Memory.{read_bytes-write_bytes_apart}
use quickstep.Utils.{store_u48, extract_u48, store_u32}
use quickstep.Utils.RoundTrip.{extract-store_u48, length-store_u48, length-store_u32}
use quickstep.BTree.{BpNode, BpKvMeta, get_meta, get_key, get_leaf_child, child_at_ptr, space_left}
use quickstep.BTree.Append.{bp_done, bp_panic, write_entry, append_entry, append_leaf_entry}
use quickstep.BTree.Append.{append_inner_entry}

-- The words end where the free bytes start, and keys and children stand behind the free bytes.
pub record IsBpNode (n : BpNode) : Type 0 where
  pub inside : n.alloc_idx < 4072
  pub words : 4 * n.count ≤ n.alloc_idx + 1
  pub behind : (i : ℕ) → i < n.count → n.alloc_idx < (get_meta n i).start_offset
  pub ends : (i : ℕ) → i < n.count → (get_meta n i).start_offset + (get_meta n i).key_len + 6 ≤ 4072

abbrev pub appended : BpNode → List ℕ → ℕ → BpNode
appended n key child =
    let low = n.alloc_idx - (length key + 6) in
    write_entry key (store_u48 child) (low + 1) (record n { alloc_idx = low })

-- The new pivot and its child are the last ones, and the others are as before.
pub record IsAppended (n : BpNode) (key : List ℕ) (child : ℕ) (n' : BpNode) : Type 0 where
  pub node : IsBpNode n'
  pub one_more : n'.count ≡ n.count + 1
  pub same_lowest : n'.lowest ≡ n.lowest
  pub taken : n'.alloc_idx + (length key + 6) ≡ n.alloc_idx
  pub new_key : get_key n' n.count ≡ some key
  pub new_child : get_leaf_child n' n.count ≡ child % 2 ^ 48
  pub old_keys : (i : ℕ) → i < n.count → get_key n' i ≡ get_key n i
  pub old_children : (i : ℕ) → i < n.count → get_leaf_child n' i ≡ get_leaf_child n i

read_written :
    (cells : Memory) (from : ℕ) (bytes : List ℕ) (len : ℕ)
    → length bytes ≡ len
    → read_bytes (write_bytes cells from bytes) len from ≡ bytes
read_written cells from bytes len same =
    ap (λ x. read_bytes (write_bytes cells from bytes) x from) (sym same)
    ∙ read_bytes-write_bytes cells from bytes

module _ (n : BpNode) (key : List ℕ) (child : ℕ) (h : IsBpNode n) (small : length key ≤ 64)
    (room : 4 * n.count + 4 + (length key + 6) ≤ n.alloc_idx + 1) where
  low : ℕ
  low = n.alloc_idx - (length key + 6)

  abbrev n' : BpNode
  n' = appended n key child

  read_old :
      (len i : ℕ)
      → (i + len ≤ 4 * n.count) ⊎ (n.alloc_idx < i)
      → read_bytes n'.rest len i ≡ read_bytes n.rest len i
  unfolding write_entry
  read_old len i far =
      read_bytes-write_bytes_apart _ (4 * n.count + 2) (to_le 2 (length key)) len i
        (ground (arith, length-to_le 2 (length key)))
      ∙ read_bytes-write_bytes_apart _ (4 * n.count) (to_le 2 (n.alloc_idx - (length key + 6) + 1))
          len i (ground (arith, length-to_le 2 (n.alloc_idx - (length key + 6) + 1)))
      ∙ read_bytes-write_bytes_apart _ (n.alloc_idx - (length key + 6) + 1 + length key)
          (store_u48 child) len i (ground (arith, length-store_u48 child))
      ∙ read_bytes-write_bytes_apart n.rest (n.alloc_idx - (length key + 6) + 1) key len i
          (ground arith)

  meta_old : (i : ℕ) → i < n.count → get_meta n' i ≡ get_meta n i
  unfolding get_meta
  meta_old i before =
      ap₂ (λ a b. record { start_offset = from_le a; key_len = from_le b })
        (read_old 2 (4 * i) (inl (omega arith))) (read_old 2 (4 * i + 2) (inl (omega arith)))

  meta_new :
      get_meta n' n.count
      ≡ record { start_offset = n.alloc_idx - (length key + 6) + 1; key_len = length key }
  unfolding get_meta write_entry
  meta_new =
      let start : ℕ = n.alloc_idx - (length key + 6) + 1 in
      ap₂ (λ a b. record { start_offset = a; key_len = b })
        (ap from_le (
            read_bytes-write_bytes_apart _ (4 * n.count + 2) (to_le 2 (length key)) 2 (4 * n.count)
              (inl (omega arith))
            ∙ read_written _ (4 * n.count) (to_le 2 start) 2 (length-to_le 2 start))
          ∙ from_le-to_le 2 start (omega (arith, h.inside)))
        (ap from_le (
            read_written _ (4 * n.count + 2) (to_le 2 (length key)) 2 (length-to_le 2 (length key)))
          ∙ from_le-to_le 2 (length key) (omega arith))

  -- The bytes of the new entry are not those of its word.
  read_new :
      (len i : ℕ)
      → 4 * n.count + 4 ≤ i
      → read_bytes n'.rest len i
        ≡ read_bytes
            (write_bytes
              (write_bytes n.rest (n.alloc_idx - (length key + 6) + 1) key)
              (n.alloc_idx - (length key + 6) + 1 + length key)
              (store_u48 child))
            len
            i
  unfolding write_entry
  read_new len i behind =
      read_bytes-write_bytes_apart _ (4 * n.count + 2) (to_le 2 (length key)) len i
        (inr (omega (arith, length-to_le 2 (length key))))
      ∙ read_bytes-write_bytes_apart _ (4 * n.count) (to_le 2 (n.alloc_idx - (length key + 6) + 1))
          len i (inr (omega (arith, length-to_le 2 (n.alloc_idx - (length key + 6) + 1))))

  pub key_new : get_key n' n.count ≡ some key
  unfolding get_key
  key_new =
      let start : ℕ = n.alloc_idx - (length key + 6) + 1 in
      let fits : ltb 4072 (start + length key) ≡ false = ground (arith, h.inside) in
      rw (meta_new, fits, get_key)
        (ap some (
          read_new (length key) start (omega arith)
          ∙ read_bytes-write_bytes_apart _ (start + length key) (store_u48 child) (length key) start
              (inl (omega arith))
          ∙ read_bytes-write_bytes n.rest start key))

  child_new : get_leaf_child n' n.count ≡ child % 2 ^ 48
  unfolding get_leaf_child child_at_ptr
  child_new =
      let at : ℕ = n.alloc_idx - (length key + 6) + 1 + length key in
      ap (λ m. extract_u48 (read_bytes n'.rest 6 (m.start_offset + m.key_len))) meta_new
      ∙ ap extract_u48 (
          read_new 6 at (omega arith)
          ∙ read_written _ at (store_u48 child) 6 (length-store_u48 child)
          ∙ sym (append-nil (store_u48 child)))
      ∙ extract-store_u48 child []

  key_old : (i : ℕ) → i < n.count → get_key n' i ≡ get_key n i
  unfolding get_key
  key_old i before =
      ap
        (λ m.
          if ltb 4072 (m.start_offset + m.key_len)
          then none
          else some (read_bytes n'.rest m.key_len m.start_offset))
        (meta_old i before)
      ∙ ap
          (λ bytes.
            if ltb 4072 ((get_meta n i).start_offset + (get_meta n i).key_len)
            then none
            else some bytes)
          (read_old _ _ (inr (h.behind i before)))

  child_old : (i : ℕ) → i < n.count → get_leaf_child n' i ≡ get_leaf_child n i
  unfolding get_leaf_child child_at_ptr
  child_old i before =
      ap (λ m. extract_u48 (read_bytes n'.rest 6 (m.start_offset + m.key_len))) (meta_old i before)
      ∙ ap extract_u48 (read_old _ _ (inr (omega (arith, h.behind i before))))

  pub appended-IsBpNode : IsBpNode n'
  unfolding write_entry
  appended-IsBpNode = record {
    inside = omega (arith, h.inside);
    words = omega arith;
    behind = λ i high. elim (Bool-cases (i == n.count)) [
      | inl last ↦ omega (
        arith,
        ap (λ x. (get_meta n' x).start_offset) ((==_iff i n.count).0 last),
        ap (λ (m : BpKvMeta). m.start_offset) meta_new,
      )
      | inr old ↦
          let before : i < n.count = ground arith in
          omega
            (arith, ap (λ (m : BpKvMeta). m.start_offset) (meta_old i before), h.behind i before)
    ];
    ends = λ i high. elim (Bool-cases (i == n.count)) [
      | inl last ↦ omega (
        arith,
        ap (λ x. (get_meta n' x).start_offset + (get_meta n' x).key_len)
            ((==_iff i n.count).0 last),
        ap (λ (m : BpKvMeta). m.start_offset + m.key_len) meta_new,
        h.inside,
      )
      | inr old ↦
          let before : i < n.count = ground arith in
          omega (
            arith,
            ap (λ (m : BpKvMeta). m.start_offset + m.key_len) (meta_old i before),
            h.ends i before,
          )
    ];
  }

  pub append_leaf_entry-appended : append_leaf_entry key child n ≡ bp_done (appended n key child)
  unfolding append_leaf_entry append_entry space_left
  append_leaf_entry-appended =
      let short : ltb 64 (length key) ≡ false = ground arith in
      let left : (n.alloc_idx + 2 ^ 64 - 4 * n.count + 1) % 2 ^ 64 ≡ n.alloc_idx + 1 - 4 * n.count =
        omega (arith, h.inside, h.words) in
      let free : ltb (n.alloc_idx + 1 - 4 * n.count) (length key + 6 + 4) ≡ false = ground arith in
      let enough : ltb n.alloc_idx (length key + 6) ≡ false = ground arith in
      let fits : ltb 4072 (n.alloc_idx - (length key + 6) + 1 + (length key + 6)) ≡ false =
        ground (arith, h.inside) in
      let six : (length (store_u48 child) == 6) ≡ true = ground (arith, length-store_u48 child) in
      rw (short, left, free, enough, fits, six, append_leaf_entry, append_entry, space_left) refl

-- On a well-formed node with room for the key, a child of 6 bytes and a word of 4, for a key of at
-- most 64 bytes: the append succeeds, the node is well-formed again, its last pivot is the key with
-- the low 48 bits of the child behind it, the free bytes end below the key, and the lowest child and
-- the other pivots and children are as before.
pub append_leaf_entry-IsAppended :
    (n : BpNode) (key : List ℕ) (child : ℕ)
    → IsBpNode n
    → length key ≤ 64
    → 4 * n.count + 4 + (length key + 6) ≤ n.alloc_idx + 1
    → (n' : BpNode) × (append_leaf_entry key child n ≡ bp_done n') × IsAppended n key child n'
unfolding write_entry
append_leaf_entry-IsAppended n key child h small room = (
  appended n key child,
  append_leaf_entry-appended n key child h small room,
  record {
    node = appended-IsBpNode n key child h small room;
    one_more = refl;
    same_lowest = refl;
    taken = omega (arith, room);
    new_key = key_new n key child h small room;
    new_child = child_new n key child h small room;
    old_keys = key_old n key child h small room;
    old_children = child_old n key child h small room;
  },
)

-- On a well-formed node with room for the key, a child of 4 bytes and a word of 4, for a key of at
-- most 64 bytes: the append of an inner child panics, whatever the child.
pub append_inner_entry_panics :
    (n : BpNode) (key : List ℕ) (child : ℕ)
    → IsBpNode n
    → length key ≤ 64
    → 4 * n.count + 4 + (length key + 4) ≤ n.alloc_idx + 1
    → append_inner_entry key child n ≡ bp_panic
unfolding append_inner_entry append_entry space_left
append_inner_entry_panics n key child h small room =
    let short : ltb 64 (length key) ≡ false = ground arith in
    let left : (n.alloc_idx + 2 ^ 64 - 4 * n.count + 1) % 2 ^ 64 ≡ n.alloc_idx + 1 - 4 * n.count =
      omega (arith, h.inside, h.words) in
    let free : ltb (n.alloc_idx + 1 - 4 * n.count) (length key + 4 + 4) ≡ false = ground arith in
    let enough : ltb n.alloc_idx (length key + 4) ≡ false = ground arith in
    let fits : ltb 4072 (n.alloc_idx - (length key + 4) + 1 + (length key + 4)) ≡ false =
      ground (arith, h.inside) in
    let eight : (length (store_u32 child) == 4) ≡ false = ground (arith, length-store_u32 child) in
    rw (short, left, free, enough, fits, eight, append_inner_entry, append_entry, space_left) refl
