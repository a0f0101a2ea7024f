-- ===== src/Wal/Manager/Checkpoint.antt =====
-- A checkpoint of a page, and `clear`, keep the invariant of the log.
use quickstep.Base.{ℕ, ◌+◌, ◌^◌, ◌<◌, ◌≡◌, refl, ap, sym, ◌∙◌, arith, List, [], ◌++◌, some}
use quickstep.Base.{true, false, Bool-cases, inl, inr}
use quickstep.Base.{length, All, length-append, append-nil, take-append, drop-append}
use quickstep.Base.{drop}
use quickstep.Wal.Record.{WalRecord}
use quickstep.Wal.Codec.Payload.{IsFitting}
use quickstep.Wal.Reader.Groups.{encode}
use quickstep.Wal.File.{manifest_bytes, write_manifest, set_len}
use quickstep.Wal.File.Manifest.{length-manifest_bytes}
use quickstep.Wal.Manager.State.{
  WalState, checkpoint_page, clear, retain, all_other, rewrite_records,
}
use quickstep.Wal.Manager.State.{sum_bytes, lookup}
use quickstep.Wal.Manager.Counts.{count_of}
use quickstep.Wal.Manager.Rewrite.{runs, note_groups, rewrite_loop-runs, count_at-note_groups}
use quickstep.Wal.Manager.Rewrite.{sum_bytes-note_groups}
use quickstep.Wal.Manager.Open.{IsLog}
use quickstep.Wal.Manager.Retain.{bytes_of, encode-bytes_of, records_of-IsFitting, retain-le}
use quickstep.Wal.Manager.Retain.{retain-IsFitting, retain_of_all_other}

set_len_manifest :
    (n : ℕ) (body : List ℕ) → set_len 32 (manifest_bytes n ++ body) ≡ manifest_bytes n
unfolding set_len
set_len_manifest n body = ground (
  arith,
  take-append 32 (manifest_bytes n) body (length-manifest_bytes n),
  length-append (manifest_bytes n) body,
  length-manifest_bytes n,
  append-nil (manifest_bytes n),
)

-- The state behind a checkpoint that drops records.
abbrev pub rewritten : List WalRecord → WalState
rewritten rs =
    let gs = runs (length rs) rs in
    record {
      file = manifest_bytes (32 + length (encode gs)) ++ encode gs;
      records = rs;
      leaf_counts = note_groups gs [];
      total_records = length rs;
      total_bytes = length (encode gs);
      checkpoint_len = 32 + length (encode gs);
    }

rewritten-IsLog :
    (rs : List WalRecord)
    → All IsFitting rs
    → length rs < 2 ^ 32
    → 32 + bytes_of rs < 2 ^ 64
    → IsLog (rewritten rs)
unfolding lookup
rewritten-IsLog rs h few small =
    let gs = runs (length rs) rs in
    let loop = rewrite_loop-runs (length rs) rs [] [] (omega arith) h few in
    let size : length (manifest_bytes (32 + length (encode gs)) ++ encode gs)
        ≡ 32 + length (encode gs) =
      omega (
        arith,
        length-append (manifest_bytes (32 + length (encode gs))) (encode gs),
        length-manifest_bytes (32 + length (encode gs)),
      ) in
    record {
      groups = gs;
      whole = loop.1;
      small = omega (arith, size, encode-bytes_of gs loop.1, ap bytes_of loop.2);
      file = refl;
      records = sym loop.2;
      total_records = refl;
      total_bytes = omega (arith, size);
      counts =
          λ page. omega (arith, count_at-note_groups page gs [] loop.1, ap (count_of page) loop.2);
      checkpoint_low = omega arith;
      checkpoint_high = omega (arith, size);
    }

rewrite_records-runs :
    (n : ℕ) (body : List ℕ) (rs : List WalRecord)
    → All IsFitting rs
    → length rs < 2 ^ 32
    → rewrite_records (manifest_bytes n ++ body) rs
      ≡ some
          (manifest_bytes n ++ encode (runs (length rs) rs), note_groups (runs (length rs) rs) [])
unfolding rewrite_records
rewrite_records-runs n body rs h few =
    rw (set_len_manifest n body)
      (rewrite_loop-runs (length rs) rs (manifest_bytes n) [] (omega arith) h few).0

records-IsFitting : (s : WalState) → IsLog s → All IsFitting s.records
records-IsFitting s l = rw l.records (records_of-IsFitting l.groups l.whole)

untouched :
    (page : ℕ) (s : WalState) → all_other page s.records ≡ true → checkpoint_page page s ≡ some s
unfolding checkpoint_page
untouched page s h = rw h refl

checkpoint_page-rewritten :
    (page : ℕ) (s : WalState) (l : IsLog s)
    → length s.records < 2 ^ 32
    → 32 + bytes_of s.records < 2 ^ 64
    → all_other page s.records ≡ false
    → checkpoint_page page s ≡ some (rewritten (retain page s.records))
unfolding checkpoint_page write_manifest
checkpoint_page-rewritten page s l few small found =
    let rs = retain page s.records in
    let gs = runs (length rs) rs in
    let total = length (encode gs) in
    let fits = retain-IsFitting page s.records (records-IsFitting s l) in
    let less = retain-le page s.records in
    let loop = rewrite_loop-runs (length rs) rs [] [] (omega arith) fits (omega (arith, less.0)) in
    let rewrite =
      rewrite_records-runs s.checkpoint_len (encode l.groups) rs fits (omega (arith, less.0)) in
    let sum : sum_bytes 0 (note_groups gs []) ≡ total =
      sum_bytes-note_groups gs
        (omega (arith, less.1, encode-bytes_of gs loop.1, ap bytes_of loop.2)) in
    let behind : drop 32 (manifest_bytes s.checkpoint_len ++ encode gs) ≡ encode gs =
      drop-append 32 (manifest_bytes s.checkpoint_len) (encode gs)
        (length-manifest_bytes s.checkpoint_len) in
    ground (arith, found, sym l.file, rewrite, sum, behind)

-- A log that satisfies the invariant, with fewer than 2 ^ 32 records that take less than 2 ^ 64
-- bytes even in groups of their own: the checkpoint of a page succeeds, the invariant holds
-- afterwards, and the records are those of the other pages, in their order.
pub checkpoint_page-IsLog :
    (page : ℕ) (s : WalState)
    → IsLog s
    → length s.records < 2 ^ 32
    → 32 + bytes_of s.records < 2 ^ 64
    → (s' : WalState) × (checkpoint_page page s ≡ some s')
      × IsLog s'
      × (s'.records ≡ retain page s.records)
checkpoint_page-IsLog page s l few small = elim (Bool-cases (all_other page s.records)) [
  | inl none_there ↦
      (s, untouched page s none_there, l, sym (retain_of_all_other page s.records none_there))
  | inr found ↦
      let less = retain-le page s.records in
      (
        rewritten (retain page s.records),
        checkpoint_page-rewritten page s l few small found,
        rewritten-IsLog (retain page s.records)
            (retain-IsFitting page s.records (records-IsFitting s l)) (omega (arith, less.0))
            (omega (arith, less.1)),
        refl,
      )
]

-- `clear` on a log that satisfies the invariant leaves a log that satisfies it, without records.
pub clear-IsLog : (s : WalState) → IsLog s → IsLog (clear s) × ((clear s).records ≡ [])
unfolding clear write_manifest runs note_groups
clear-IsLog s l =
    let m : List ℕ = manifest_bytes s.checkpoint_len in
    let cut : set_len 32 s.file ≡ m =
      ap (set_len 32) l.file ∙ set_len_manifest s.checkpoint_len (encode l.groups) in
    let none_left : drop 32 (set_len 32 s.file) ≡ [] =
      ap (drop 32) (cut ∙ sym (append-nil m))
      ∙ drop-append 32 m [] (length-manifest_bytes s.checkpoint_len) in
    let same : clear s ≡ rewritten [] = ground (arith, none_left) in
    rw same (rewritten-IsLog [] tt (omega arith) (omega arith), refl)
