-- ===== src/Wal/Manager/Append.antt =====
-- Appending a record keeps the invariant of the log.
use quickstep.Base.{ℕ, ◌+◌, ◌^◌, ◌<◌, ◌≡◌, refl, ap, sym, ◌∙◌, arith, List, [], ◌∷◌, ◌++◌, some}
use quickstep.Base.{length, All-append, length-append, append_assoc, append-nil}
use quickstep.Wal.Record.{WalRecord}
use quickstep.Wal.Codec.{record_size}
use quickstep.Wal.Codec.Payload.{IsFitting}
use quickstep.Wal.Reader.Groups.{Group, IsGroup, encode, encode_group, records_of}
use quickstep.Wal.Reader.Groups.{write_group-encode_group, length-encode_single}
use quickstep.Wal.File.{manifest_bytes}
use quickstep.Wal.Manager.State.{WalState, append_record, checked_add, update, add_bytes, add_count}
use quickstep.Wal.Manager.Counts.{count_at-add_count, count_at-add_bytes}
use quickstep.Wal.Manager.Counts.{count_of-append}
use quickstep.Wal.Manager.Open.{IsLog, single-IsGroup}

encode-append :
    (gs : List Group) (g : Group) → encode (gs ++ (g ∷ [])) ≡ encode gs ++ encode_group g
encode-append [] g = append-nil (encode_group g)
encode-append (h ∷ gs) g =
    ap (λ t. encode_group h ++ t) (encode-append gs g)
    ∙ sym (append_assoc (encode_group h) (encode gs) (encode_group g))

records_of-append :
    (gs : List Group) (page : ℕ) (rs : List WalRecord)
    → records_of (gs ++ ((page, rs) ∷ [])) ≡ records_of gs ++ rs
records_of-append [] page rs = append-nil rs
records_of-append (h ∷ gs) page rs =
    ap (λ t. h.1 ++ t) (records_of-append gs page rs) ∙ sym (append_assoc h.1 (records_of gs) rs)

-- The state that a successful append leaves.
abbrev pub appended : WalRecord → WalState → WalState
appended r s =
    let written = length (encode_group (r.page_id, r ∷ [])) in
    record {
      file = s.file ++ encode_group (r.page_id, r ∷ []);
      records = s.records ++ (r ∷ []);
      leaf_counts =
          update r.page_id (add_bytes written) (update r.page_id (add_count 1) s.leaf_counts);
      total_records = s.total_records + 1;
      total_bytes = s.total_bytes + written;
      checkpoint_len = s.checkpoint_len;
    }

append_record-appended :
    (s : WalState) (r : WalRecord)
    → IsFitting r
    → s.total_bytes + length (encode_group (r.page_id, r ∷ [])) < 2 ^ 64
    → append_record r s ≡ some (appended r s)
unfolding checked_add append_record
append_record-appended s r fits small =
    rw (write_group-encode_group (r.page_id, r ∷ []) (single-IsGroup r fits), append_record)
      (ground arith)

pub appended-IsLog :
    (s : WalState) (r : WalRecord)
    → IsLog s
    → IsFitting r
    → length s.file + length (encode_group (r.page_id, r ∷ [])) < 2 ^ 64
    → IsLog (appended r s)
appended-IsLog s r l fits small =
    let g : Group = (r.page_id, r ∷ []) in
    let size : length (s.file ++ encode_group g) ≡ length s.file + length (encode_group g) =
      length-append s.file (encode_group g) in
    record {
      groups = l.groups ++ (g ∷ []);
      whole = All-append IsGroup l.groups (g ∷ []) l.whole (single-IsGroup r fits, tt);
      small = omega (arith, size);
      file =
          ap (λ f. f ++ encode_group g) l.file
          ∙ append_assoc (manifest_bytes s.checkpoint_len) (encode l.groups) (encode_group g)
          ∙ ap (λ t. manifest_bytes s.checkpoint_len ++ t) (sym (encode-append l.groups g));
      records =
          ap (λ t. t ++ (r ∷ [])) l.records ∙ sym (records_of-append l.groups r.page_id (r ∷ []));
      total_records = omega (arith, l.total_records, length-append s.records (r ∷ []));
      total_bytes = omega (arith, size, l.total_bytes);
      counts = λ page. omega (
        arith,
        count_at-add_bytes page r.page_id (length (encode_group g))
            (update r.page_id (add_count 1) s.leaf_counts),
        count_at-add_count page r.page_id 1 s.leaf_counts,
        l.counts page,
        count_of-append page s.records (r ∷ []),
      );
      checkpoint_low = l.checkpoint_low;
      checkpoint_high = omega (arith, size, l.checkpoint_high);
    }

-- A record that fits its fields, appended to a log that satisfies the invariant and stays below
-- 2 ^ 64 bytes with it: the append succeeds, the invariant holds afterwards, the record stands
-- behind the others, and the file has grown by the bytes of one group.
pub append_record-IsLog :
    (s : WalState) (r : WalRecord)
    → IsLog s
    → IsFitting r
    → length s.file + (13 + record_size r) < 2 ^ 64
    → (s' : WalState) × (append_record r s ≡ some s')
      × IsLog s'
      × (s'.records ≡ s.records ++ (r ∷ []))
      × (length s'.file ≡ length s.file + (13 + record_size r))
append_record-IsLog s r l fits small =
    let size = length-encode_single r in
    (
      appended r s,
      append_record-appended s r fits (omega (arith, size, l.total_bytes)),
      appended-IsLog s r l fits (omega (arith, size)),
      refl,
      omega (arith, size, length-append s.file (encode_group (r.page_id, r ∷ []))),
    )
