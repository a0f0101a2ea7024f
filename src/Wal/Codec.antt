-- ===== src/Wal/Codec.antt =====
-- `write_record_payload`, `write_group`, `record_size`, and the loops of `read_records`.
-- The index into the bytes that are read is kept as the list of those that are left.
pub mod Lengths
pub mod Payload
pub mod Prefix
use quickstep.Base.{ℕ, zero, suc, ◌+◌, ◌-◌, ◌^◌, List, [], ◌∷◌, ◌++◌, Option, none, some}
use quickstep.Base.{ltb, ◌==◌, if◌then◌else◌, length, get_or, take, drop, true, false}
use quickstep.Base.Bytes.{to_le, from_le}
use quickstep.Base.Words.{saturating_add}
use quickstep.Wal.Record.{
  WalRecord, WalOp, put, tombstone, txn_marker, EntryKind, as_byte, from_byte,
}
use quickstep.Wal.Record.{to_record_type, from_record_type, record_type_put, record_type_tombstone}
use quickstep.Wal.Record.{group_marker, group_header_len}

-- The bytes written for a record. `len() as u32` and `to_le_bytes` keep 32 bits, as `to_le 4` does.
pub payload_body : WalRecord → WalOp → List ℕ
payload_body r (put value) =
    to_le 4 (length r.key)
    ++ (to_le 4 (length value)
        ++ (to_le 4 (length r.lower_fence)
            ++ (to_le 4 (length r.upper_fence)
                ++ (r.key ++ (value ++ (r.lower_fence ++ r.upper_fence))))))
payload_body r tombstone =
    to_le 4 (length r.key)
    ++ (to_le 4 (length r.lower_fence)
        ++ (to_le 4 (length r.upper_fence) ++ (r.key ++ (r.lower_fence ++ r.upper_fence))))
payload_body r (txn_marker m) = []

pub op_tag : WalOp → ℕ
op_tag (put value) = record_type_put
op_tag tombstone = record_type_tombstone
op_tag (txn_marker m) = to_record_type m

-- The count that `write_record_payload` returns, and `record_size`.
pub payload_count : WalRecord → WalOp → ℕ
payload_count r (put value) =
    (1 + 8)
    + 1
    + 4
    + 4
    + 4
    + 4
    + length r.key
    + length value
    + length r.lower_fence
    + length r.upper_fence
payload_count r tombstone =
    (1 + 8) + 1 + 4 + 4 + 4 + length r.key + length r.lower_fence + length r.upper_fence
payload_count r (txn_marker m) = (1 + 8) + 1

-- What is appended to the file, and the returned count.
unfoldable pub write_record_payload : WalRecord → List ℕ × ℕ
unfolding op_tag payload_body payload_count
write_record_payload r =
    (op_tag r.op ∷ as_byte r.kind ∷ (to_le 8 r.txn_id ++ payload_body r r.op), payload_count r r.op)

unfoldable pub record_size : WalRecord → ℕ
unfolding payload_count
record_size r = payload_count r r.op

unfoldable pub write_payloads : List WalRecord → List ℕ × ℕ
write_payloads [] = ([], 0)
write_payloads (r ∷ rs) =
    let (bytes, count) = write_record_payload r in
    let (more, total) = write_payloads rs in (bytes ++ more, count + total)

-- `none` is the panic on a group of 2 ^ 32 records or more.
unfoldable pub write_group : ℕ → List WalRecord → Option (List ℕ × ℕ)
write_group page_id [] = some ([], 0)
write_group page_id (r ∷ rs) =
    let (bytes, payload) = write_payloads (r ∷ rs) in
    if ltb (length (r ∷ rs)) (2 ^ 32)
    then some (
      group_marker ∷ (to_le 8 page_id ++ (to_le 4 (length (r ∷ rs)) ++ bytes)),
      group_header_len + payload,
    )
    else none

-- One record of `read_records`, from the index behind its type, kind and transaction id. `none` is
-- `break 'outer`.
pub read_tombstone : ℕ → EntryKind → ℕ → List ℕ → Option (WalRecord × List ℕ)
read_tombstone page_id kind txn_id bytes =
    if ltb (length bytes) 12
    then none
    else let key_len = from_le (take 4 bytes) in
      let b₁ = drop 4 bytes in
      let lower_len = from_le (take 4 b₁) in
      let b₂ = drop 4 b₁ in
      let upper_len = from_le (take 4 b₂) in
      let b₃ = drop 4 b₂ in
      if ltb (length b₃) (key_len + lower_len + upper_len)
      then none
      else let b₄ = drop key_len b₃ in
        let b₅ = drop lower_len b₄ in
        some (
          record {
            page_id = page_id;
            key = take key_len b₃;
            lower_fence = take lower_len b₄;
            upper_fence = take upper_len b₅;
            kind = kind;
            txn_id = txn_id;
            op = tombstone;
          },
          drop upper_len b₅,
        )

pub read_put : ℕ → EntryKind → ℕ → List ℕ → Option (WalRecord × List ℕ)
read_put page_id kind txn_id bytes =
    if ltb (length bytes) 16
    then none
    else let key_len = from_le (take 4 bytes) in
      let b₁ = drop 4 bytes in
      let val_len = from_le (take 4 b₁) in
      let b₂ = drop 4 b₁ in
      let lower_len = from_le (take 4 b₂) in
      let b₃ = drop 4 b₂ in
      let upper_len = from_le (take 4 b₃) in
      let b₄ = drop 4 b₃ in
      if ltb (length b₄) (key_len + val_len + lower_len + upper_len)
      then none
      else let b₅ = drop key_len b₄ in
        let b₆ = drop val_len b₅ in
        let b₇ = drop lower_len b₆ in
        some (
          record {
            page_id = page_id;
            key = take key_len b₄;
            lower_fence = take lower_len b₆;
            upper_fence = take upper_len b₇;
            kind = kind;
            txn_id = txn_id;
            op = put (take val_len b₅);
          },
          drop upper_len b₇,
        )

pub read_marker : ℕ → ℕ → EntryKind → ℕ → List ℕ → Option (WalRecord × List ℕ)
unfolding from_record_type
read_marker tag page_id kind txn_id bytes = elim (from_record_type tag) [
  | none ↦ none
  | some m ↦ some (
    record {
      page_id = page_id;
      key = [];
      lower_fence = [];
      upper_fence = [];
      kind = kind;
      txn_id = txn_id;
      op = txn_marker m;
    },
    bytes,
  )
]

-- `match record_type`.
pub read_body : ℕ → ℕ → EntryKind → ℕ → List ℕ → Option (WalRecord × List ℕ)
read_body record_type page_id kind txn_id bytes =
    if record_type == record_type_tombstone
    then read_tombstone page_id kind txn_id bytes
    else if record_type == record_type_put
    then read_put page_id kind txn_id bytes
    else read_marker record_type page_id kind txn_id bytes

unfoldable pub read_record : ℕ → List ℕ → Option (WalRecord × List ℕ)
read_record page_id [] = none
read_record page_id (record_type ∷ bytes) =
    if ltb (length bytes) (1 + 8)
    then none
    else let kind = from_byte (get_or bytes 0 0) in
      let b₁ = drop 1 bytes in
      let txn_id = from_le (take 8 b₁) in read_body record_type page_id kind txn_id (drop 8 b₁)
