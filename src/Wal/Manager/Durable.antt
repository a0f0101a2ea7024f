-- ===== src/Wal/Manager/Durable.antt =====
-- What the three public append operations write is there after the file is opened again.
use quickstep.Base.{
  ℕ, ◌+◌, ◌^◌, ◌<◌, ◌≡◌, refl, ◌∙◌, arith, List, [], ◌∷◌, ◌++◌, Option, some, length,
}
use quickstep.Wal.Record.{
  WalRecord, EntryKind, TxnMarker, put, tombstone, txn_marker, txn_meta_page_id,
}
use quickstep.Wal.Codec.{record_size}
use quickstep.Wal.Codec.Payload.{IsFitting}
use quickstep.Wal.Manager.State.{WalState, append_record, open_file}
use quickstep.Wal.Manager.Open.{IsLog, open_file-IsLog}
use quickstep.Wal.Manager.Append.{append_record-IsLog}

unfoldable pub append_tombstone :
    (page_id : ℕ) (key lower_fence upper_fence : List ℕ) (kind : EntryKind) (txn_id : ℕ)
    → WalState
    → Option WalState
append_tombstone page_id key lower_fence upper_fence kind txn_id s =
    append_record
      (record {
        page_id = page_id;
        key = key;
        lower_fence = lower_fence;
        upper_fence = upper_fence;
        kind = kind;
        txn_id = txn_id;
        op = tombstone;
      })
      s

unfoldable pub append_put :
    (page_id : ℕ) (key value lower_fence upper_fence : List ℕ) (kind : EntryKind) (txn_id : ℕ)
    → WalState
    → Option WalState
append_put page_id key value lower_fence upper_fence kind txn_id s =
    append_record
      (record {
        page_id = page_id;
        key = key;
        lower_fence = lower_fence;
        upper_fence = upper_fence;
        kind = kind;
        txn_id = txn_id;
        op = put value;
      })
      s

unfoldable pub append_txn_marker : TxnMarker → EntryKind → ℕ → WalState → Option WalState
append_txn_marker marker kind txn_id s =
    append_record
      (record {
        page_id = txn_meta_page_id;
        key = [];
        lower_fence = [];
        upper_fence = [];
        kind = kind;
        txn_id = txn_id;
        op = txn_marker marker;
      })
      s

-- The append succeeds, and opening its file again finds the record behind the older ones.
abbrev pub IsKept : WalState → WalRecord → Option WalState → Type 0
IsKept s r after =
    (s' : WalState) × (after ≡ some s')
    × ((open_file s'.file).records ≡ s.records ++ (r ∷ []))
    × IsLog (open_file s'.file)

append_record-IsKept :
    (s : WalState) (r : WalRecord)
    → IsLog s
    → IsFitting r
    → length s.file + (13 + record_size r) < 2 ^ 64
    → IsKept s r (append_record r s)
append_record-IsKept s r l fits small =
    let (s', e, l', records, size) = append_record-IsLog s r l fits small in
    let (opened_log, same_file, same_records) = open_file-IsLog s' l' in
    (s', e, same_records ∙ records, opened_log)

-- On a log that satisfies the invariant, a put, a tombstone and a transaction marker that fit their
-- fields, and with which the file stays below 2 ^ 64 bytes, are found again, behind the older
-- records, when the file is opened after the append.
pub appends-IsKept :
    (s : WalState) (page_id : ℕ) (key value lower upper : List ℕ) (kind : EntryKind) (txn_id : ℕ)
    (marker : TxnMarker)
    → IsLog s
    → page_id < 2 ^ 64
    → length key < 2 ^ 32
    → length value < 2 ^ 32
    → length lower < 2 ^ 32
    → length upper < 2 ^ 32
    → txn_id < 2 ^ 64
    → length s.file + (48 + length key + length value + length lower + length upper) < 2 ^ 64
    → let entry : WalRecord = record {
      page_id = page_id;
      key = key;
      lower_fence = lower;
      upper_fence = upper;
      kind = kind;
      txn_id = txn_id;
      op = tombstone;
    } in
      IsKept s
        (record entry { op = put value })
        (append_put page_id key value lower upper kind txn_id s)
      × IsKept s entry (append_tombstone page_id key lower upper kind txn_id s)
      × IsKept s
          (record {
            page_id = txn_meta_page_id;
            key = [];
            lower_fence = [];
            upper_fence = [];
            kind = kind;
            txn_id = txn_id;
            op = txn_marker marker;
          })
          (append_txn_marker marker kind txn_id s)
unfolding append_put append_tombstone append_txn_marker record_size
appends-IsKept s page_id key value lower upper kind txn_id marker l hp hk hv hl hu ht small = (
  append_record-IsKept s _ l
      (record { key = hk; lower = hl; upper = hu; page = hp; txn = ht; op = hv }) (omega arith),
  append_record-IsKept s _ l
      (record { key = hk; lower = hl; upper = hu; page = hp; txn = ht; op = tt }) (omega arith),
  append_record-IsKept s _ l
      (record {
        key = omega arith;
        lower = omega arith;
        upper = omega arith;
        page = omega arith;
        txn = ht;
        op = (refl, refl, refl);
      })
      (omega arith),
)
