-- ===== src/Wal/Codec/Lengths.antt =====
-- The byte counts that the writers return are the numbers of bytes written.
use quickstep.Base.{◌+◌, ◌≡◌, refl, arith, List, [], ◌∷◌, length, length-append}
use quickstep.Base.Bytes.{length-to_le}
use quickstep.Wal.Record.{WalRecord, WalOp, put, tombstone, txn_marker}
use quickstep.Wal.Codec.{
  write_record_payload, write_payloads, record_size, payload_body, payload_count,
}

ruleset length_rules = (length-append, length-to_le)

length-payload_body :
    (r : WalRecord) (op : WalOp) → length (payload_body r op) + 10 ≡ payload_count r op
unfolding payload_body payload_count
length-payload_body r (put value) = simp length_rules (omega arith)
length-payload_body r tombstone = simp length_rules (omega arith)
length-payload_body r (txn_marker m) = omega arith

pub length-write_record_payload :
    (r : WalRecord)
    → (length (write_record_payload r).0 ≡ record_size r)
      × ((write_record_payload r).1 ≡ record_size r)
unfolding write_record_payload record_size
length-write_record_payload r =
    (simp length_rules (omega (arith, length-payload_body r r.op)), refl)

pub length-write_payloads :
    (rs : List WalRecord) → length (write_payloads rs).0 ≡ (write_payloads rs).1
unfolding write_payloads
length-write_payloads [] = refl
length-write_payloads (r ∷ rs) =
    rw length-append (omega (arith, length-write_record_payload r, length-write_payloads rs))
