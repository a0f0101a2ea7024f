-- ===== src/Wal/Codec/Payload.antt =====
-- A record, written and read back.
use quickstep.Base.{ℕ, ◌^◌, ◌<◌, ◌≡◌, arith, List, [], ◌∷◌, ◌++◌, ◌∙◌, append_assoc, some, length}
use quickstep.Base.{take-length-append, drop-length-append, length-append}
use quickstep.Base.Bytes.{to_le, from_le-take, drop-to_le, length-to_le}
use quickstep.Wal.Record.{WalRecord, WalOp, put, tombstone, txn_marker, EntryKind, as_byte}
use quickstep.Wal.Record.{from_byte-as_byte, begin, commit, abort, to_record_type}
use quickstep.Wal.Codec.{write_record_payload, read_record, read_tombstone, read_put, read_marker}
use quickstep.Wal.Codec.{read_body, op_tag, payload_body}

ruleset cut_rules = (append_assoc, drop-to_le, take-length-append, drop-length-append)

ruleset length_rules = (length-append, length-to_le)

module _ (page_id : ℕ) (kind : EntryKind) (txn_id : ℕ) (key lower upper rest : List ℕ)
    (hk : length key < 2 ^ 32) (hl : length lower < 2 ^ 32) (hu : length upper < 2 ^ 32) where
  abbrev written : WalOp → WalRecord
  written op = record {
    page_id = page_id;
    key = key;
    lower_fence = lower;
    upper_fence = upper;
    kind = kind;
    txn_id = txn_id;
    op = op;
  }

  read_tombstone-written :
      read_tombstone page_id kind txn_id (
        to_le 4 (length key)
        ++ (to_le 4 (length lower)
            ++ (to_le 4 (length upper) ++ (key ++ (lower ++ (upper ++ rest))))))
      ≡ some (written tombstone, rest)
  unfolding read_tombstone
  read_tombstone-written =
      simp
        (
          cut_rules,
          from_le-take 4 (length key) _ hk,
          from_le-take 4 (length lower) _ hl,
          from_le-take 4 (length upper) _ hu,
        )
        (simp length_rules (ground arith))

  read_put-written :
      (value : List ℕ)
      → length value < 2 ^ 32
      → read_put page_id kind txn_id (
          to_le 4 (length key)
          ++ (to_le 4 (length value)
              ++ (to_le 4 (length lower)
                  ++ (to_le 4 (length upper) ++ (key ++ (value ++ (lower ++ (upper ++ rest))))))))
        ≡ some (written (put value), rest)
  unfolding read_put
  read_put-written value hv =
      simp
        (
          cut_rules,
          from_le-take 4 (length key) _ hk,
          from_le-take 4 (length value) _ hv,
          from_le-take 4 (length lower) _ hl,
          from_le-take 4 (length upper) _ hu,
        )
        (simp length_rules (ground arith))

-- What every record that the log is given satisfies: lengths that fit 32 bits, a transaction id of
-- 64 bits, and no key or fences on a transaction marker.
abbrev pub FitsOp : WalRecord → WalOp → Type 0
FitsOp r (put value) = length value < 2 ^ 32
FitsOp r tombstone = Unit
FitsOp r (txn_marker m) = (r.key ≡ []) × (r.lower_fence ≡ []) × (r.upper_fence ≡ [])

pub record IsFitting (r : WalRecord) : Type 0 where
  pub key : length r.key < 2 ^ 32
  pub lower : length r.lower_fence < 2 ^ 32
  pub upper : length r.upper_fence < 2 ^ 32
  pub page : r.page_id < 2 ^ 64
  pub txn : r.txn_id < 2 ^ 64
  pub op : FitsOp r r.op

-- The type, kind and transaction id in front of the rest of a record.
read_record-header :
    (tag page_id txn_id : ℕ) (k : EntryKind) (body : List ℕ)
    → txn_id < 2 ^ 64
    → read_record page_id (tag ∷ as_byte k ∷ (to_le 8 txn_id ++ body))
      ≡ read_body tag page_id k txn_id body
unfolding read_record
read_record-header tag page_id txn_id k body h =
    simp (cut_rules, from_le-take 8 txn_id _ h, from_byte-as_byte)
      (simp length_rules (ground arith))

read_body-written :
    (r : WalRecord) (op : WalOp) (rest : List ℕ)
    → IsFitting r
    → FitsOp r op
    → read_body (op_tag op) r.page_id r.kind r.txn_id (payload_body r op ++ rest)
      ≡ some (record r { op = op }, rest)
unfolding read_body read_marker op_tag to_record_type payload_body
read_body-written r (put value) rest h ho = simp append_assoc (
    read_put-written r.page_id r.kind r.txn_id r.key r.lower_fence r.upper_fence rest h.key h.lower
      h.upper value ho)
read_body-written r tombstone rest h ho = simp append_assoc (
    read_tombstone-written r.page_id r.kind r.txn_id r.key r.lower_fence r.upper_fence rest h.key
      h.lower h.upper)
read_body-written r (txn_marker begin) rest h ho = cc
read_body-written r (txn_marker commit) rest h ho = cc
read_body-written r (txn_marker abort) rest h ho = cc

-- Reading after writing gives back the record, and stops where the bytes of the record end.
pub read_record-write :
    (r : WalRecord) (rest : List ℕ)
    → IsFitting r
    → read_record r.page_id ((write_record_payload r).0 ++ rest) ≡ some (r, rest)
unfolding write_record_payload
read_record-write r rest h = rw append_assoc (
    read_record-header (op_tag r.op) r.page_id r.txn_id r.kind (payload_body r r.op ++ rest) h.txn
    ∙ read_body-written r r.op rest h h.op)
