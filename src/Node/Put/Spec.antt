-- ===== src/Node/Put/Spec.antt =====
-- `try_put_with_suffix`: what it does when the record fits, and when it fits only by the code's own
-- count.
use quickstep.Base.{ℕ, zero, suc, ◌+◌, ◌-◌, ◌^◌, ◌≤◌, ◌<◌, ◌≡◌, refl, ap, sym, ◌∙◌, inl, arith}
use quickstep.Base.{List, [], ◌∷◌, some, All, length, take, get_or, length-take_of_le}
use quickstep.Base.Bytes.{IsByte, from_le}
use quickstep.Base.Memory.{Memory, read_bytes, write_bytes, read_bytes_of_list}
use quickstep.Base.Memory.{read_bytes-write_bytes_apart}
use quickstep.Types.KvMeta
use quickstep.Node.{Node, count, meta_addr, get_kv_meta}
use quickstep.Node.Search.{Found, found, missing, out_of_fuel, binary_search}
use quickstep.Node.Search.Sorted.{IsPlace, binary_search-IsPlace}
use quickstep.Node.Layout.{IsNode, offset_at}
use quickstep.Node.Put.{put_done, put_new, find_min_offset, try_put_with_suffix}
use quickstep.Node.Put.Insert.{IsRecord, find_min_offset-le}
use quickstep.Node.Put.Insert.Invariant.{inserted}
use quickstep.Node.Put.Result.{IsPut, put_new-inserted, inserted-IsPut}
use quickstep.Node.Put.Update.{put_existing-updated, updated, updated-IsPut}

offset-lt : (w : ℕ) → KvMeta.offset w < 2 ^ 16
unfolding KvMeta.offset
offset-lt w = omega arith

-- The record fits: the key has a value of that length, or it is new and there is room for it and
-- for its word behind the words.
abbrev pub CanPut : Node → List ℕ → List ℕ → Found → Type 0
CanPut n s val (found i) = KvMeta.val_size (get_kv_meta n i) ≡ length val
CanPut n s val (missing p) =
    (count n + 1 < 512)
    × (length s < 2 ^ 14)
    × (length val < 2 ^ 14)
    × ((m : ℕ) × (find_min_offset n ≡ some m)
        × (meta_addr (count n + 1) + (length s + length val) ≤ m))
CanPut n s val out_of_fuel = Unit

module _ (n : Node) (s val : List ℕ) (h : IsNode n) (hs : All IsByte s) where
  at_place :
      (r : Found)
      → binary_search n s ≡ r
      → IsPlace n s r
      → CanPut n s val r
      → (n' : Node) × (try_put_with_suffix s val n ≡ put_done n') × IsPut n s val n'
  unfolding try_put_with_suffix
  at_place (found i) here (low, high, key) same = (
    updated n i val,
    rw (here, try_put_with_suffix) (put_existing-updated n i s val same),
    updated-IsPut n i val h (low, high) same s hs key,
  )
  at_place (missing p) here place (few, small_key, small_val, (m, min_is, room)) =
      let off : ℕ = m - (length s + length val) in
      let below : (i : ℕ) → i < count n → m ≤ offset_at n i =
        λ i. find_min_offset-le n m i min_is in
      let fits : IsRecord s val off = record {
        key = small_key;
        value = small_val;
        offset = omega (arith, below 0 (omega (arith, h.ordered.two)), offset-lt (get_kv_meta n 0));
        bytes = hs;
      } in
      (
        inserted n p s val off,
        rw (here, try_put_with_suffix) (put_new-inserted n p s val m min_is (omega arith) fits),
        inserted-IsPut n p s val off h fits place few (omega arith)
            λ i high. omega (arith, below i high),
      )
  at_place out_of_fuel here place can = absurd place

  -- Putting a record that fits into a node that satisfies the invariant succeeds: the invariant
  -- holds afterwards, the key has the value, and all other keys have the values from before.
  pub try_put_with_suffix-IsPut :
      CanPut n s val (binary_search n s)
      → (n' : Node) × (try_put_with_suffix s val n ≡ put_done n') × IsPut n s val n'
  try_put_with_suffix-IsPut =
      at_place (binary_search n s) refl (binary_search-IsPlace n s h.ordered hs)

get_or-take : (k m : ℕ) (xs : List ℕ) → k < m → get_or (take m xs) k 0 ≡ get_or xs k 0
get_or-take k zero xs h = absurd (omega arith)
get_or-take k (suc m) [] h = refl
get_or-take zero (suc m) (x ∷ xs) h = refl
get_or-take (suc k) (suc m) (x ∷ xs) h = get_or-take k m xs (omega arith)

read_bytes-write_first :
    (cells : Memory) (from : ℕ) (bytes : List ℕ)
    → 8 ≤ length bytes
    → read_bytes (write_bytes cells from bytes) 8 from ≡ take 8 bytes
unfolding write_bytes
read_bytes-write_first cells from bytes long =
    ap (λ len. read_bytes (write_bytes cells from bytes) len from)
      (sym (length-take_of_le 8 bytes long))
    ∙ read_bytes_of_list (write_bytes cells from bytes) (take 8 bytes) from λ k lt.
      let short : k < 8 = omega (arith, length-take_of_le 8 bytes long) in
      let at_k : from + k - from ≡ k = omega arith in
      ground (arith, ap (λ x. get_or bytes x 0) at_k, get_or-take k 8 bytes short)

-- The code counts one word for the header, which has two. When the record fits exactly by that
-- count, it is put onto the last word, that of the upper fence: with a key of 8 bytes or more, the
-- put succeeds, and the word is the first 8 bytes of the key.
pub put_new_overwrites :
    (n : Node) (p : ℕ) (s val : List ℕ)
    → find_min_offset n ≡ some (meta_addr (count n) + (length s + length val))
    → length s < 2 ^ 14
    → length val < 2 ^ 14
    → All IsByte s
    → count n < 512
    → 8 ≤ length s
    → (n' : Node) × (put_new p s val n ≡ put_done n')
      × (get_kv_meta n' (count n) ≡ from_le (take 8 s))
unfolding get_kv_meta
put_new_overwrites n p s val min_is small_key small_val hs few long =
    let m : ℕ = meta_addr (count n) + (length s + length val) in
    let off : ℕ = m - (length s + length val) in
    let at_last : off ≡ meta_addr (count n) = omega arith in
    let fits : IsRecord s val off = record {
      key = small_key;
      value = small_val;
      offset = omega arith;
      bytes = hs;
    } in
    (
      inserted n p s val off,
      put_new-inserted n p s val m min_is (omega arith) fits,
      ap from_le (
          ap (read_bytes (inserted n p s val off).page 8) (sym at_last)
          ∙ read_bytes-write_bytes_apart _ (off + length s) val 8 off (inl (omega arith))
          ∙ read_bytes-write_first _ off s long),
    )
