-- ===== src/Node/Remove/Erase.antt =====
-- What `erase_kv_in_buffer` does to the bytes of the other entries.
use quickstep.Base.{ℕ, zero, suc, ◌+◌, ◌-◌, ◌%◌, ◌^◌, ◌≤◌, ◌<◌, ◌≡◌, ◌≢◌, ◌⊎◌, refl, ap, ◌∙◌, arith}
use quickstep.Base.{true, false, ltb, ◌==◌, ==_iff, min, Bool-cases, inl, inr}
use quickstep.Base.Bytes.{length-to_le, from_le}
use quickstep.Base.Memory.{write_bytes, move_bytes, read_bytes-move_bytes_apart}
use quickstep.Types.KvMeta
use quickstep.Node.{Node, count, meta_addr, get_kv_meta, set_kv_meta}
use quickstep.Node.Words.{word_at, word_at-write_other}
use quickstep.Node.Layout.{offset_at, len_at}
use quickstep.Node.Remove.{erase_loop, erase_kv_in_buffer}

-- An entry that no other one is below of: nothing changes.
pub erase_loop_of_lowest :
    (left i target len : ℕ) (n : Node)
    → ((j : ℕ) → i ≤ j → j < i + left → target ≤ offset_at n j)
    → erase_loop left i target len target n ≡ (n, target)
unfolding erase_loop
erase_loop_of_lowest zero i target len n h = refl
erase_loop_of_lowest (suc left) i target len n h =
    let high : ltb (offset_at n i) target ≡ false =
      ground (arith, h i (omega arith) (omega arith)) in
    rw (high, erase_loop)
      (erase_loop_of_lowest left (i + 1) target len n λ j low top. h j (omega arith) (omega arith))

pub erase_kv_in_buffer_of_lowest :
    (kv : ℕ) (n : Node)
    → ((j : ℕ) → j < count n → KvMeta.offset kv ≤ offset_at n j)
    → (erase_kv_in_buffer kv n).0 ≡ n
unfolding erase_kv_in_buffer
erase_kv_in_buffer_of_lowest kv n h =
    let same : (KvMeta.offset kv == KvMeta.offset kv) ≡ true = ground arith in
    rw
      (
        erase_loop_of_lowest (count n) 0 (KvMeta.offset kv)
            (KvMeta.key_size kv + KvMeta.val_size kv) n (λ j low high. h j (omega arith)),
        same,
      )
      refl

set_kv_meta_data :
    (n : Node) (i w x : ℕ) → meta_addr (i + 1) ≤ x → (set_kv_meta n i w).page x ≡ n.page x
unfolding set_kv_meta write_bytes
set_kv_meta_data n i w x behind = ground (arith, length-to_le 8 w)

-- The loop changes no byte behind the words.
erase_loop_data :
    (left i target len least : ℕ) (n : Node) (x : ℕ)
    → meta_addr (i + left) ≤ x
    → (erase_loop left i target len least n).0.page x ≡ n.page x
unfolding erase_loop
erase_loop_data zero i target len least n x behind = refl
erase_loop_data (suc left) i target len least n x behind =
    elim (Bool-cases (ltb (offset_at n i) target)) [
      | inl below ↦
          rw (below, erase_loop)
            (erase_loop_data left (i + 1) target len (min least (offset_at n i)) _ x (omega arith)
              ∙ set_kv_meta_data n i _ x (omega arith))
      | inr high ↦
          rw (high, erase_loop) (erase_loop_data left (i + 1) target len least n x (omega arith))
    ]

other_word : (n : Node) (i j w : ℕ) → i ≢ j → get_kv_meta (set_kv_meta n i w) j ≡ get_kv_meta n j
unfolding get_kv_meta set_kv_meta word_at
other_word n i j w other = word_at-write_other n.page i j w other

-- The loop leaves the words of the entries that do not stand below the erased one.
erase_loop_word :
    (left i target len least : ℕ) (n : Node) (j : ℕ)
    → target ≤ offset_at n j
    → get_kv_meta (erase_loop left i target len least n).0 j ≡ get_kv_meta n j
unfolding erase_loop
erase_loop_word zero i target len least n j above = refl
erase_loop_word (suc left) i target len least n j above =
    elim (Bool-cases (ltb (offset_at n i) target)) [
      | inl below ↦
          let w = KvMeta.set_offset (get_kv_meta n i) ((offset_at n i + len) % 2 ^ 16) in
          let lower : offset_at n i < target = ground (arith, below) in
          let kept =
            other_word n i j w
              (λ same. absurd (omega (arith, lower, above, ap (offset_at n) same))) in
          rw (below, erase_loop)
            (erase_loop_word left (i + 1) target len (min least (offset_at n i)) (set_kv_meta n i w)
                j (omega (arith, above, ap KvMeta.offset kept))
              ∙ kept)
      | inr high ↦ rw (high, erase_loop) (erase_loop_word left (i + 1) target len least n j above)
    ]

-- The least offset that the loop finds, from the entries that are left or from those before.
abbrev IsFoundIn : ℕ → ℕ → ℕ → ℕ → Node → ℕ → Type 0
IsFoundIn left i target least n m =
    (least ≡ m) ⊎ ((k : ℕ) × (i ≤ k) × (k < i + left) × (offset_at n k ≡ m) × (m < target))

found_next :
    (left i target least : ℕ) (n n' : Node) (m : ℕ)
    → ((k : ℕ) → i < k → offset_at n' k ≡ offset_at n k)
    → m ≤ least
    → m ≤ offset_at n i
    → IsFoundIn (suc left) i target least n m
    → IsFoundIn left (i + 1) target (min least (offset_at n i)) n' m
found_next left i target least n n' m kept low here (inl same) =
    inl (omega (arith, same, low, here))
found_next left i target least n n' m kept low here (inr (k, from, to, at, below)) =
    elim (Bool-cases (k == i)) [
      | inl first ↦
          let equal : k ≡ i = (==_iff k i).0 first in
          inl (omega (arith, low, at, ap (offset_at n) equal))
      | inr other ↦
          let later : i < k = ground (arith, other, from) in
          inr (k, omega (arith, later), omega (arith, to), kept k later ∙ at, below)
    ]

found_skip :
    (left i target least : ℕ) (n : Node) (m : ℕ)
    → target ≤ offset_at n i
    → IsFoundIn (suc left) i target least n m
    → IsFoundIn left (i + 1) target least n m
found_skip left i target least n m high (inl same) = inl same
found_skip left i target least n m high (inr (k, from, to, at, below)) =
    elim (Bool-cases (k == i)) [
      | inl first ↦
          let equal : k ≡ i = (==_iff k i).0 first in
          absurd (omega (arith, high, at, below, ap (offset_at n) equal))
      | inr other ↦
          let later : i < k = ground (arith, other, from) in
          inr (k, omega (arith, later), omega (arith, to), at, below)
    ]

erase_loop_least :
    (left i target len least m : ℕ) (n : Node)
    → m ≤ least
    → ((k : ℕ) → i ≤ k → k < i + left → m ≤ offset_at n k)
    → IsFoundIn left i target least n m
    → (erase_loop left i target len least n).1 ≡ m
unfolding erase_loop
erase_loop_least zero i target len least m n low all (inl same) = same
erase_loop_least zero i target len least m n low all (inr (k, from, to, at, below)) =
    absurd (omega (arith, from, to))
erase_loop_least (suc left) i target len least m n low all there =
    elim (Bool-cases (ltb (offset_at n i) target)) [
      | inl below ↦
          let w = KvMeta.set_offset (get_kv_meta n i) ((offset_at n i + len) % 2 ^ 16) in
          let n' = set_kv_meta n i w in
          let kept : (k : ℕ) → i < k → offset_at n' k ≡ offset_at n k =
            λ k later. ap KvMeta.offset (other_word n i k w (λ same. omega (arith, same, later))) in
          let here : m ≤ offset_at n i = all i (omega arith) (omega arith) in
          rw (below, erase_loop)
            (erase_loop_least left (i + 1) target len (min least (offset_at n i)) m n'
              (omega (arith, low, here))
              (λ k from to. omega (
                arith,
                all k (omega (arith, from)) (omega (arith, to)),
                kept k (omega (arith, from)),
              ))
              (found_next left i target least n n' m kept low here there))
      | inr high ↦
          let above : target ≤ offset_at n i = ground (arith, high) in
          rw (high, erase_loop)
            (erase_loop_least left (i + 1) target len least m n low
              (λ k from to. all k (omega (arith, from)) (omega (arith, to)))
              (found_skip left i target least n m above there))
    ]

moved_word :
    (n : Node) (j m len : ℕ)
    → meta_addr (j + 1) ≤ m
    → get_kv_meta (record n { page = move_bytes n.page m (m + len) len }) j ≡ get_kv_meta n j
unfolding get_kv_meta
moved_word n j m len front = ap from_le (
    read_bytes-move_bytes_apart n.page m (m + len) len 8 (meta_addr j) (inl (omega (arith, front))))

moved_byte :
    (n : Node) (m len y : ℕ)
    → m + len ≤ y
    → y < m + len + len
    → move_bytes n.page m (m + len) len y ≡ n.page (y - (m + len) + m)
unfolding move_bytes
moved_byte n m len y low high = ground (arith, low, high)

-- The bytes of the entry `i` of a node are erased. The bytes of an entry `j` start where those of `i`
-- end, and `low` is the entry whose bytes stand lowest, below `i` and behind the words. Then the word
-- of `j` is as before, but as many bytes from its start on as `i` is longer than all that stands below
-- it become the first bytes of `i`.
pub erase_kv_in_buffer-overwrites :
    (n : Node) (i j low x : ℕ)
    → low < count n
    → offset_at n j ≡ offset_at n i + len_at n i
    → offset_at n low < offset_at n i
    → ((k : ℕ) → k < count n → offset_at n low ≤ offset_at n k)
    → meta_addr (count n) ≤ offset_at n low
    → j < count n
    → offset_at n i + x < offset_at n low + len_at n i
    → let n' = (erase_kv_in_buffer (get_kv_meta n i) n).0 in
      (get_kv_meta n' j ≡ get_kv_meta n j)
      × (n'.page (offset_at n' j + x) ≡ n.page (offset_at n i + x))
unfolding erase_kv_in_buffer
erase_kv_in_buffer-overwrites n i j low x there above below lowest behind inside few =
    let kv = get_kv_meta n i in
    let target = KvMeta.offset kv in
    let len = len_at n i in
    let m = offset_at n low in
    let least : (erase_loop (count n) 0 target len target n).1 ≡ m =
      erase_loop_least (count n) 0 target len target m n (omega (arith, below))
        (λ k from to. lowest k (omega (arith, to)))
        (inr (low, omega arith, omega (arith, there), refl, below)) in
    let n₁ = (erase_loop (count n) 0 target len target n).0 in
    let other : (m == target) ≡ false = ground (arith, below) in
    let word : get_kv_meta n₁ j ≡ get_kv_meta n j =
      erase_loop_word (count n) 0 target len target n j (omega (arith, above)) in
    let moved : Node = record n₁ { page = move_bytes n₁.page m (m + len) len } in
    let kept : get_kv_meta moved j ≡ get_kv_meta n j =
      moved_word n₁ j m len (omega (arith, inside, behind)) ∙ word in
    rw (least, other)
      (
        kept,
        let from : offset_at moved j + x - (m + len) + m ≡ target + x =
              omega (arith, ap KvMeta.offset kept, above, few, below) in
            moved_byte n₁ m len (offset_at moved j + x)
              (omega (arith, ap KvMeta.offset kept, above, below))
              (omega (arith, ap KvMeta.offset kept, above, few))
            ∙ ap n₁.page from
            ∙ erase_loop_data (count n) 0 target len target n (target + x)
                (omega (arith, behind, below)),
      )
