-- ===== src/Wal/Examples.antt =====
-- The log on concrete records.
use quickstep.Base.{ℕ, ◌+◌, ◌^◌, ◌<◌, ◌≡◌, refl, arith, List, [], ◌∷◌, ◌++◌, some}
use quickstep.Base.{length, take, drop, get_or, All}
use quickstep.Base.Bytes.{to_le}
use quickstep.Wal.Record.{WalRecord, put, tombstone, redo, undo, as_byte}
use quickstep.Wal.Codec.{write_record_payload, write_payloads, record_size}
use quickstep.Wal.Codec.Payload.{IsFitting}
use quickstep.Wal.Reader.Groups.{Group, IsGroup, encode, encode_group}
use quickstep.Wal.File.{manifest_bytes}
use quickstep.Wal.Manager.State.{WalState, open_file, append_record, checkpoint_page}
use quickstep.Wal.Manager.State.{retain, global_checkpoint_candidate}
use quickstep.Wal.Manager.Open.{IsLog, opened, opened-IsLog, open_file-IsLog, open_file-torn_append}
use quickstep.Wal.Manager.Open.{single-IsGroup}
use quickstep.Wal.Manager.Append.{append_record-IsLog}
use quickstep.Wal.Manager.Checkpoint.{checkpoint_page-IsLog}
use quickstep.Wal.Manager.Durable.{
  IsKept, append_put, append_tombstone, append_txn_marker, appends-IsKept,
}
use quickstep.Wal.Record.{txn_marker, commit, txn_meta_page_id}
use quickstep.Wal.Manager.Candidate.{IsCandidate, global_checkpoint_candidate-IsCandidate}

abbrev put_record : WalRecord
put_record = record {
  page_id = 5;
  key = 1 ∷ 2 ∷ [];
  lower_fence = [];
  upper_fence = 9 ∷ [];
  kind = redo;
  txn_id = 7;
  op = put (3 ∷ 4 ∷ []);
}

abbrev delete_record : WalRecord
delete_record = record put_record { page_id = 6; kind = undo; op = tombstone }

put_record-IsFitting : IsFitting put_record
put_record-IsFitting = record {
  key = omega arith;
  lower = omega arith;
  upper = omega arith;
  page = omega arith;
  txn = omega arith;
  op = omega arith;
}

delete_record-IsFitting : IsFitting delete_record
delete_record-IsFitting = record {
  key = omega arith;
  lower = omega arith;
  upper = omega arith;
  page = omega arith;
  txn = omega arith;
  op = tt;
}

abbrev two_groups : List Group
two_groups = (5, put_record ∷ []) ∷ (6, delete_record ∷ []) ∷ []

two_groups-IsGroup : All IsGroup two_groups
two_groups-IsGroup = (
  single-IsGroup put_record put_record-IsFitting,
  (single-IsGroup delete_record delete_record-IsFitting, tt),
)

small_groups : 32 + length (encode two_groups) < 2 ^ 64
unfolding encode_group to_le write_payloads write_record_payload as_byte
small_groups = omega arith

-- A log of two records.
abbrev two_log : WalState
two_log = opened 32 two_groups

two_log-IsLog : IsLog two_log
two_log-IsLog =
    opened-IsLog 32 two_groups (omega arith) (omega arith) two_groups-IsGroup small_groups

open_file-IsLog_example :
    IsLog (open_file two_log.file)
    × ((open_file two_log.file).file ≡ two_log.file)
    × ((open_file two_log.file).records ≡ put_record ∷ delete_record ∷ [])
open_file-IsLog_example = open_file-IsLog two_log two_log-IsLog

abbrev put_bytes : List ℕ
put_bytes = encode_group (5, put_record ∷ [])

cut_bytes : put_bytes ≡ take 30 put_bytes ++ (get_or put_bytes 30 0 ∷ drop 31 put_bytes)
unfolding encode_group to_le write_payloads write_record_payload as_byte
cut_bytes = refl

open_file-torn_append_example :
    IsLog (open_file (two_log.file ++ take 30 put_bytes))
    × ((open_file (two_log.file ++ take 30 put_bytes)).file ≡ two_log.file)
    × ((open_file (two_log.file ++ take 30 put_bytes)).records ≡ two_log.records)
open_file-torn_append_example =
    open_file-torn_append two_log put_record (take 30 put_bytes) (drop 31 put_bytes)
      (get_or put_bytes 30 0) two_log-IsLog put_record-IsFitting cut_bytes

room : length two_log.file + (13 + record_size put_record) < 2 ^ 64
unfolding manifest_bytes encode_group to_le write_payloads write_record_payload as_byte record_size
room = omega arith

append_record-IsLog_example :
    (s' : WalState) × (append_record put_record two_log ≡ some s')
    × IsLog s'
    × (s'.records ≡ two_log.records ++ (put_record ∷ []))
    × (length s'.file ≡ length two_log.file + (13 + record_size put_record))
append_record-IsLog_example =
    append_record-IsLog two_log put_record two_log-IsLog put_record-IsFitting room

sizes : 32 + (13 + record_size put_record + (13 + record_size delete_record + 0)) < 2 ^ 64
unfolding record_size
sizes = omega arith

kept : retain 5 two_log.records ≡ delete_record ∷ []
unfolding retain
kept = refl

checkpoint_page-IsLog_example :
    (s' : WalState) × (checkpoint_page 5 two_log ≡ some s')
    × IsLog s'
    × (s'.records ≡ retain 5 two_log.records)
checkpoint_page-IsLog_example = checkpoint_page-IsLog 5 two_log two_log-IsLog (omega arith) sizes

global_checkpoint_candidate-IsCandidate_example :
    IsCandidate two_log 2 1000 (global_checkpoint_candidate two_log 2 1000)
global_checkpoint_candidate-IsCandidate_example =
    global_checkpoint_candidate-IsCandidate two_log 2 1000

room_for_put : length two_log.file + (48 + 2 + 3 + 1 + 1) < 2 ^ 64
unfolding manifest_bytes encode_group to_le write_payloads write_record_payload as_byte
room_for_put = omega arith

appends-IsKept_example :
    let entry : WalRecord = record {
      page_id = 8;
      key = 1 ∷ 2 ∷ [];
      lower_fence = 0 ∷ [];
      upper_fence = 9 ∷ [];
      kind = redo;
      txn_id = 3;
      op = tombstone;
    } in
    IsKept two_log
      (record entry { op = put (4 ∷ 5 ∷ 6 ∷ []) })
      (append_put 8 (1 ∷ 2 ∷ []) (4 ∷ 5 ∷ 6 ∷ []) (0 ∷ []) (9 ∷ []) redo 3 two_log)
    × IsKept two_log entry (append_tombstone 8 (1 ∷ 2 ∷ []) (0 ∷ []) (9 ∷ []) redo 3 two_log)
    × IsKept two_log
        (record {
          page_id = txn_meta_page_id;
          key = [];
          lower_fence = [];
          upper_fence = [];
          kind = redo;
          txn_id = 3;
          op = txn_marker commit;
        })
        (append_txn_marker commit redo 3 two_log)
appends-IsKept_example =
    appends-IsKept two_log 8 (1 ∷ 2 ∷ []) (4 ∷ 5 ∷ 6 ∷ []) (0 ∷ []) (9 ∷ []) redo 3 commit
      two_log-IsLog (omega arith) (omega arith) (omega arith) (omega arith) (omega arith)
      (omega arith) room_for_put
