-- ===== src/Node/Words.antt =====
-- The KVMeta words in the bytes of a node, and what changes them.
use quickstep.Base.{ℕ, ◌+◌, ◌-◌, ◌*◌, ◌≤◌, ◌<◌, ◌≡◌, ◌≢◌, inl, ap, ◌∙◌, arith, List}
use quickstep.Base.Bytes.{to_le, from_le, from_le-to_le, length-to_le}
use quickstep.Base.Words.{IsU64}
use quickstep.Base.Memory.{Memory, read_bytes, write_bytes, move_bytes, read_bytes-write_bytes}
use quickstep.Base.Memory.{
  read_bytes-write_bytes_apart, read_bytes-move_bytes, read_bytes-move_bytes_apart,
}
use quickstep.Node.{meta_addr, kv_bytes}

-- The word at an index, in memory.
unfoldable pub word_at : Memory → ℕ → ℕ
word_at cells i = from_le (read_bytes cells kv_bytes (meta_addr i))

pub word_at-write_same :
    (cells : Memory) (i w : ℕ)
    → IsU64 w
    → word_at (write_bytes cells (meta_addr i) (to_le 8 w)) i ≡ w
unfolding word_at
word_at-write_same cells i w small =
    let back : read_bytes (write_bytes cells (meta_addr i) (to_le 8 w)) 8 (meta_addr i)
        ≡ to_le 8 w =
      ap (λ len. read_bytes (write_bytes cells (meta_addr i) (to_le 8 w)) len (meta_addr i))
        (omega (arith, length-to_le 8 w))
      ∙ read_bytes-write_bytes cells (meta_addr i) (to_le 8 w) in
    ap from_le back ∙ from_le-to_le 8 w (omega arith)

pub word_at-write_other :
    (cells : Memory) (i j w : ℕ)
    → i ≢ j
    → word_at (write_bytes cells (meta_addr i) (to_le 8 w)) j ≡ word_at cells j
unfolding word_at
word_at-write_other cells i j w other = ap from_le (
    read_bytes-write_bytes_apart cells (meta_addr i) (to_le 8 w) 8 (meta_addr j)
      (grind (arith, length-to_le 8 w)))

-- Bytes behind the words.
pub word_at-write_behind :
    (cells : Memory) (from : ℕ) (bytes : List ℕ) (i : ℕ)
    → meta_addr (i + 1) ≤ from
    → word_at (write_bytes cells from bytes) i ≡ word_at cells i
unfolding word_at
word_at-write_behind cells from bytes i behind =
    ap from_le (read_bytes-write_bytes_apart cells from bytes 8 (meta_addr i) (inl (omega arith)))

-- The words from `p` on, moved up by one.
pub word_at-move_up_before :
    (cells : Memory) (p len i : ℕ)
    → i ≤ p
    → word_at (move_bytes cells (meta_addr p) (meta_addr (p + 1)) len) i ≡ word_at cells i
unfolding word_at
word_at-move_up_before cells p len i before = ap from_le (
    read_bytes-move_bytes_apart cells (meta_addr p) (meta_addr (p + 1)) len 8 (meta_addr i)
      (inl (omega arith)))

pub word_at-move_up_behind :
    (cells : Memory) (p many i : ℕ)
    → p ≤ i
    → i < p + many
    → word_at (move_bytes cells (meta_addr p) (meta_addr (p + 1)) (kv_bytes * many)) (i + 1)
      ≡ word_at cells i
unfolding word_at
word_at-move_up_behind cells p many i low high =
    let there : meta_addr (i + 1) - meta_addr (p + 1) + meta_addr p ≡ meta_addr i = omega arith in
    ap from_le (
      read_bytes-move_bytes cells (meta_addr p) (meta_addr (p + 1)) (kv_bytes * many) 8
        (meta_addr (i + 1)) (omega arith) (omega arith)
      ∙ ap (read_bytes cells 8) there)

-- The words behind `p`, moved down by one.
pub word_at-move_down_before :
    (cells : Memory) (p len i : ℕ)
    → i < p
    → word_at (move_bytes cells (meta_addr (p + 1)) (meta_addr p) len) i ≡ word_at cells i
unfolding word_at
word_at-move_down_before cells p len i before = ap from_le (
    read_bytes-move_bytes_apart cells (meta_addr (p + 1)) (meta_addr p) len 8 (meta_addr i)
      (inl (omega arith)))

pub word_at-move_down_behind :
    (cells : Memory) (p many i : ℕ)
    → p ≤ i
    → i < p + many
    → word_at (move_bytes cells (meta_addr (p + 1)) (meta_addr p) (kv_bytes * many)) i
      ≡ word_at cells (i + 1)
unfolding word_at
word_at-move_down_behind cells p many i low high =
    let there : meta_addr i - meta_addr p + meta_addr (p + 1) ≡ meta_addr (i + 1) = omega arith in
    ap from_le (
      read_bytes-move_bytes cells (meta_addr (p + 1)) (meta_addr p) (kv_bytes * many) 8
        (meta_addr i) (omega arith) (omega arith)
      ∙ ap (read_bytes cells 8) there)
