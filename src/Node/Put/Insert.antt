-- ===== src/Node/Put/Insert.antt =====
-- A new entry, put into the bytes of a node.
pub mod Invariant
use quickstep.Base.{
  ℕ, zero, suc, ◌+◌, ◌-◌, ◌*◌, ◌^◌, ◌≤◌, ◌<◌, ◌≡◌, inl, inr, refl, ap, sym, ◌∙◌, arith,
}
use quickstep.Base.{
  List, [], ◌∷◌, Option, none, some, true, false, Bool, Bool-cases, length, get_or, All, min,
}
use quickstep.Base.{ltb, ◌==◌, ==_iff, ◌&&◌, if◌then◌else◌}
use quickstep.Base.Bytes.{IsByte, to_le, length-to_le}
use quickstep.Base.Words.{IsU64}
use quickstep.Base.Memory.{Memory, read_bytes, write_bytes, move_bytes, read_bytes-write_bytes}
use quickstep.Base.Memory.{read_bytes-write_bytes_apart, read_bytes-move_bytes_apart}
use quickstep.Types.RecordType.{insert}
use quickstep.Types.KvMeta
use quickstep.Types.KvMeta.Layout
use quickstep.Types.KvMeta.Layout.{Fields, fields, fields-new}
use quickstep.Types.NodeMeta
use quickstep.Node.{Node, count, meta_addr, kv_bytes, get_kv_meta, set_kv_meta, get_lookahead}
use quickstep.Node.Words.{word_at, word_at-write_same, word_at-write_other, word_at-write_behind}
use quickstep.Node.Words.{word_at-move_up_before, word_at-move_up_behind}
use quickstep.Node.Layout.{IsNode, offset_at}
use quickstep.Node.Put.{
  PutResult, put_done, insufficient_space, put_panic, new_record_meta, copy_record,
}
use quickstep.Node.Put.{shift_meta_right, find_min_offset, min_offset_from, put_new}

get_lookahead-lt16 : (s : List ℕ) → All IsByte s → get_lookahead s < 2 ^ 16
unfolding get_lookahead
get_lookahead-lt16 [] h = omega arith
get_lookahead-lt16 (a ∷ []) h = omega arith
get_lookahead-lt16 (a ∷ b ∷ s) h = omega arith

abbrev pub record_fields : List ℕ → List ℕ → ℕ → Fields
record_fields s val off = record {
  key_size = length s;
  val_size = length val;
  offset = off;
  typ = insert;
  fence = false;
  ref_bit = true;
  look_ahead = get_lookahead s;
}

-- What a new record is given: lengths and an offset that their fields hold, and a key of bytes.
pub record IsRecord (s val : List ℕ) (off : ℕ) : Type 0 where
  pub key : length s < 2 ^ 14
  pub value : length val < 2 ^ 14
  pub offset : off < 2 ^ 16
  pub bytes : All IsByte s

pub fields-new_record_meta :
    (s val : List ℕ) (off : ℕ)
    → IsRecord s val off
    → IsU64 (new_record_meta s val off)
      × (fields (new_record_meta s val off) ≡ record_fields s val off)
fields-new_record_meta s val off h = fields-new (record_fields s val off) (record {
  key_size = h.key;
  val_size = h.value;
  offset = h.offset;
  look_ahead = get_lookahead-lt16 s h.bytes;
})

-- The bytes after the words moved, the new word was set, and the key and the value were copied.
abbrev pub inserted_page : Memory → ℕ → ℕ → List ℕ → List ℕ → ℕ → Memory
inserted_page cells p many s val off =
    let moved = move_bytes cells (meta_addr p) (meta_addr (p + 1)) (kv_bytes * (many - p)) in
    let worded = write_bytes moved (meta_addr p) (to_le kv_bytes (new_record_meta s val off)) in
    write_bytes (write_bytes worded off s) (off + length s) val

module _ (cells : Memory) (p many : ℕ) (s val : List ℕ) (off : ℕ) (h : IsRecord s val off)
    (place : p ≤ many) (room : meta_addr (many + 1) ≤ off) where
  after : Memory
  after = inserted_page cells p many s val off

  moved : Memory
  moved = move_bytes cells (meta_addr p) (meta_addr (p + 1)) (kv_bytes * (many - p))

  word_at-data :
      (i : ℕ)
      → i ≤ many
      → word_at after i
        ≡ word_at (write_bytes moved (meta_addr p) (to_le 8 (new_record_meta s val off))) i
  unfolding after moved
  word_at-data i low =
      word_at-write_behind _ (off + length s) val i (omega arith)
      ∙ word_at-write_behind _ off s i (omega arith)

  pub word_at-new : word_at (inserted_page cells p many s val off) p ≡ new_record_meta s val off
  unfolding after moved
  word_at-new =
      word_at-data p place
      ∙ word_at-write_same moved p (new_record_meta s val off)
          (fields-new_record_meta s val off h).0

  pub word_at-before :
      (i : ℕ) → i < p → word_at (inserted_page cells p many s val off) i ≡ word_at cells i
  unfolding after moved
  word_at-before i before =
      word_at-data i (omega arith)
      ∙ word_at-write_other moved p i _ (omega arith)
      ∙ word_at-move_up_before cells p (kv_bytes * (many - p)) i (omega arith)

  pub word_at-behind :
      (i : ℕ)
      → p ≤ i
      → i < many
      → word_at (inserted_page cells p many s val off) (i + 1) ≡ word_at cells i
  unfolding after moved
  word_at-behind i behind high =
      word_at-data (i + 1) (omega arith)
      ∙ word_at-write_other moved p (i + 1) _ (omega arith)
      ∙ word_at-move_up_behind cells p (many - p) i behind (omega arith)

  -- The bytes behind the new record are as before.
  pub read_bytes-behind :
      (len i : ℕ)
      → off + (length s + length val) ≤ i
      → read_bytes (inserted_page cells p many s val off) len i ≡ read_bytes cells len i
  unfolding after moved
  read_bytes-behind len i behind =
      read_bytes-write_bytes_apart _ (off + length s) val len i (inr (omega arith))
      ∙ read_bytes-write_bytes_apart _ off s len i (inr (omega arith))
      ∙ read_bytes-write_bytes_apart moved (meta_addr p) _ len i
          (inr (omega (arith, length-to_le 8 (new_record_meta s val off))))
      ∙ read_bytes-move_bytes_apart cells (meta_addr p) (meta_addr (p + 1)) (kv_bytes * (many - p))
          len i (inr (omega arith))

  pub read_bytes-key : read_bytes (inserted_page cells p many s val off) (length s) off ≡ s
  read_bytes-key =
      read_bytes-write_bytes_apart _ (off + length s) val (length s) off (inl (omega arith))
      ∙ read_bytes-write_bytes _ off s

  pub read_bytes-value :
      read_bytes (inserted_page cells p many s val off) (length val) (off + length s) ≡ val
  read_bytes-value = read_bytes-write_bytes _ (off + length s) val

min_offset_from-le :
    (left i acc : ℕ) (n : Node)
    → (min_offset_from left i acc n ≤ acc)
      × ((j : ℕ) → i ≤ j → j < i + left → min_offset_from left i acc n ≤ offset_at n j)
unfolding min_offset_from
min_offset_from-le zero i acc n = (omega arith, λ j low high. absurd (omega arith))
min_offset_from-le (suc left) i acc n =
    let rest = min_offset_from-le left (i + 1) (min acc (offset_at n i)) n in
    (
      omega (arith, rest.0),
      λ j low high. elim (Bool-cases (i == j)) [
        | inl same ↦ ground (arith, rest.0, ap (offset_at n) ((==_iff i j).0 same))
        | inr other ↦ rest.1 j (ground arith) (omega arith)
      ],
    )

-- The smallest offset.
pub find_min_offset-le :
    (n : Node) (m i : ℕ) → find_min_offset n ≡ some m → i < count n → m ≤ offset_at n i
unfolding find_min_offset
find_min_offset-le n m i h high =
    let all = min_offset_from-le (count n - 1) 1 (offset_at n 0) n in
    elim (Bool-cases (i == 0)) [
      | inl first ↦ ground (arith, all.0, ap (offset_at n) ((==_iff i 0).0 first))
      | inr later ↦ ground (arith, all.1 i)
    ]
