-- ===== src/Wal/Reader.antt =====
-- The loops of `read_records`, over the bytes behind the manifest.
pub mod Groups
pub mod Torn
use quickstep.Base.{ℕ, zero, suc, ◌+◌, ◌-◌, List, [], ◌∷◌, ◌++◌, Option, none, some, true, false}
use quickstep.Base.{ltb, ◌==◌, if◌then◌else◌, length, get_or, take, drop}
use quickstep.Base.Bytes.{from_le}
use quickstep.Base.Words.{saturating_add}
use quickstep.Wal.Record.{WalRecord, group_marker, group_header_len}
use quickstep.Wal.Codec.{record_size, read_record}

-- What the loop over one group leaves: the records pushed, and, if it came to its end, the payload
-- count and the bytes behind the group.
pub record GroupRead : Type 0 where
  pub pushed : List WalRecord
  pub finish : Option (ℕ × List ℕ)

abbrev pub push : WalRecord → GroupRead → GroupRead
push r g = record g { pushed = r ∷ g.pushed }

unfoldable pub read_group : ℕ → ℕ → List ℕ → ℕ → GroupRead
read_group zero page_id bytes payload = record { pushed = []; finish = some (payload, bytes) }
read_group (suc left) page_id bytes payload = elim (read_record page_id bytes) [
  | none ↦ record { pushed = []; finish = none }
  | some (r, rest) ↦ push r (read_group left page_id rest (saturating_add payload (record_size r)))
]

-- `HashMap<u64, usize>` as an association list: `and_modify` or `or_insert`.
unfoldable pub add_bytes : ℕ → ℕ → List (ℕ × ℕ) → List (ℕ × ℕ)
add_bytes page bytes [] = (page, bytes) ∷ []
add_bytes page bytes ((p, b) ∷ m) =
    if p == page then (p, saturating_add b bytes) ∷ m else (p, b) ∷ add_bytes page bytes m

pub record LogRead : Type 0 where
  pub records : List WalRecord
  pub page_bytes : List (ℕ × ℕ)
  pub valid_idx : ℕ

-- The outer loop. At its head the index `idx` is also `valid_idx`. Each round takes 13 bytes at
-- least, so as many rounds as there are bytes are enough.
unfoldable pub read_groups : ℕ → List ℕ → ℕ → List WalRecord → List (ℕ × ℕ) → LogRead
read_groups zero bytes idx records page_bytes = record {
  records = records;
  page_bytes = page_bytes;
  valid_idx = idx;
}
read_groups (suc fuel) bytes idx records page_bytes =
    let stop : List WalRecord → LogRead =
      λ pushed. record { records = records ++ pushed; page_bytes = page_bytes; valid_idx = idx } in
    let page_id = from_le (take 8 (drop 1 bytes)) in
    let count = from_le (take 4 (drop 8 (drop 1 bytes))) in
    let g = read_group count page_id (drop 4 (drop 8 (drop 1 bytes))) 0 in
    elim (ltb (length bytes) group_header_len) [
      | true ↦ stop []
      | false ↦ elim (get_or bytes 0 0 == group_marker) [
        | false ↦ stop []
        | true ↦ elim g.finish [
          | none ↦ stop g.pushed
          | some (payload, rest) ↦
              read_groups fuel rest (idx + (length bytes - length rest)) (records ++ g.pushed)
                (add_bytes page_id (group_header_len + payload) page_bytes)
        ]
      ]
    ]
