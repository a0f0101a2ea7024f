-- ===== src/Wal/Manager/Open.antt =====
-- The invariant of the log, and what `open` makes of a file.
use quickstep.Base.{ℕ, ◌+◌, ◌-◌, ◌^◌, ◌≤◌, ◌<◌, ◌≡◌, refl, ap, sym, ◌∙◌, arith, List, [], ◌∷◌, ◌++◌}
use quickstep.Base.{
  if◌then◌else◌, ltb, length, All, length-append, append_assoc, append-nil, cons≢nil, take-append,
}
use quickstep.Wal.Record.{WalRecord}
use quickstep.Wal.Codec.Payload.{IsFitting}
use quickstep.Wal.Reader.{read_groups}
use quickstep.Wal.Reader.Groups.{Group, IsGroup, encode, encode_group, records_of, gather}
use quickstep.Wal.Reader.Torn.{read_groups_cut, read_groups-nil}
use quickstep.Wal.File.{manifest_bytes, set_len}
use quickstep.Wal.File.Manifest.{length-manifest_bytes, read-manifest_bytes, read_records-encode}
use quickstep.Wal.Manager.State.{WalState, open_file, count_records, set_page_bytes, lookup}
use quickstep.Wal.Manager.Counts.{
  count_at, count_of, count_at-count_records, count_at-set_page_bytes,
}

-- The file is a manifest and whole groups, they hold the records of the state, and the counters
-- count them. (`total_bytes` counts the manifest after `open` but not after a checkpoint, so the
-- invariant only bounds it.)
pub record IsLog (s : WalState) : Type 0 where
  pub groups : List Group
  pub whole : All IsGroup groups
  pub small : length s.file < 2 ^ 64
  pub file : s.file ≡ manifest_bytes s.checkpoint_len ++ encode groups
  pub records : s.records ≡ records_of groups
  pub total_records : s.total_records ≡ length s.records
  pub total_bytes : s.total_bytes ≤ length s.file
  pub counts : (page : ℕ) → count_at page s.leaf_counts ≡ count_of page s.records
  pub checkpoint_low : 32 ≤ s.checkpoint_len
  pub checkpoint_high : s.checkpoint_len ≤ length s.file

-- The state that `open` builds from whole groups.
abbrev pub opened : ℕ → List Group → WalState
opened n gs = record {
  file = manifest_bytes n ++ encode gs;
  records = records_of gs;
  leaf_counts = set_page_bytes (gather gs []) (count_records (records_of gs) []);
  total_records = length (records_of gs);
  total_bytes = 32 + length (encode gs);
  checkpoint_len = n;
}

pub set_len-append : (xs ys : List ℕ) (n : ℕ) → length xs ≡ n → set_len n (xs ++ ys) ≡ xs
unfolding set_len
set_len-append xs ys n h =
    let none_left : n - length (xs ++ ys) ≡ 0 = omega (arith, length-append xs ys) in
    rw (take-append n xs ys h, none_left) (append-nil xs)

count_at-opened :
    (page : ℕ) (rs : List WalRecord) → count_at page (count_records rs []) ≡ count_of page rs
unfolding lookup
count_at-opened page rs = omega (arith, count_at-count_records page rs [])

-- A record that fits makes a group of its own.
pub single-IsGroup : (r : WalRecord) → IsFitting r → IsGroup (r.page_id, r ∷ [])
single-IsGroup r fits = record {
  filled = cons≢nil;
  small = omega arith;
  page = fits.page;
  fits = ((refl, fits), tt);
}

-- `open` cuts the file behind the last whole group.
cut_file :
    (m e tail : List ℕ)
    → (if ltb (length m + length e) (length (m ++ (e ++ tail)))
        then set_len (length m + length e) (m ++ (e ++ tail))
        else m ++ (e ++ tail))
      ≡ m ++ e
cut_file m e [] = rw append-nil (ground (arith, length-append m e))
cut_file m e (b ∷ bs) = ground (
  arith,
  append_assoc m e (b ∷ bs),
  length-append m e,
  length-append (m ++ e) (b ∷ bs),
  set_len-append (m ++ e) (b ∷ bs) (length m + length e),
)

open_file-encode :
    (n : ℕ) (gs : List Group) (tail : List ℕ)
    → 32 ≤ n
    → n ≤ 32 + length (encode gs)
    → All IsGroup gs
    → 32 + length (encode gs) < 2 ^ 64
    → ((fuel idx : ℕ)
        → read_groups fuel tail idx (records_of gs) (gather gs [])
          ≡ record { records = records_of gs; page_bytes = gather gs []; valid_idx = idx })
    → open_file (manifest_bytes n ++ (encode gs ++ tail)) ≡ opened n gs
unfolding open_file
open_file-encode n gs tail lo hi h small stops =
    rw
      (
        read-manifest_bytes n (encode gs ++ tail) lo (omega arith),
        read_records-encode n gs tail h (omega arith) stops,
      )
      (ground (arith, cut_file (manifest_bytes n) (encode gs) tail, length-manifest_bytes n))

-- What `open` builds satisfies the invariant.
pub opened-IsLog :
    (n : ℕ) (gs : List Group)
    → 32 ≤ n
    → n ≤ 32 + length (encode gs)
    → All IsGroup gs
    → 32 + length (encode gs) < 2 ^ 64
    → IsLog (opened n gs)
opened-IsLog n gs lo hi h small =
    let size : length (manifest_bytes n ++ encode gs) ≡ 32 + length (encode gs) =
      omega (arith, length-append (manifest_bytes n) (encode gs), length-manifest_bytes n) in
    record {
      groups = gs;
      whole = h;
      small = omega (arith, size);
      file = refl;
      records = refl;
      total_records = refl;
      total_bytes = omega (arith, size);
      counts = λ page.
          count_at-set_page_bytes page (gather gs []) (count_records (records_of gs) [])
          ∙ count_at-opened page (records_of gs);
      checkpoint_low = lo;
      checkpoint_high = omega (arith, size);
    }

-- A state that satisfies the invariant, with some bytes behind the groups at which the reader
-- stops: `open` finds the same records, and cuts those bytes off.
reopen :
    (s : WalState) (tail : List ℕ) (l : IsLog s)
    → ((fuel idx : ℕ)
        → read_groups fuel tail idx (records_of l.groups) (gather l.groups []) ≡ record {
          records = records_of l.groups;
          page_bytes = gather l.groups [];
          valid_idx = idx;
        })
    → IsLog (open_file (s.file ++ tail))
      × ((open_file (s.file ++ tail)).file ≡ s.file)
      × ((open_file (s.file ++ tail)).records ≡ s.records)
reopen s tail l stops =
    let size : length s.file ≡ 32 + length (encode l.groups) = omega (
      arith,
      ap length l.file,
      length-append (manifest_bytes s.checkpoint_len) (encode l.groups),
      length-manifest_bytes s.checkpoint_len,
    ) in
    let high : s.checkpoint_len ≤ 32 + length (encode l.groups) =
      omega (arith, size, l.checkpoint_high) in
    let bound : 32 + length (encode l.groups) < 2 ^ 64 = omega (arith, size, l.small) in
    let bytes : s.file ++ tail ≡ manifest_bytes s.checkpoint_len ++ (encode l.groups ++ tail) =
      ap (λ f. f ++ tail) l.file ∙ append_assoc (manifest_bytes s.checkpoint_len) _ tail in
    rw
      (
        bytes,
        open_file-encode s.checkpoint_len l.groups tail l.checkpoint_low high l.whole bound stops,
      )
      (
        opened-IsLog s.checkpoint_len l.groups l.checkpoint_low high l.whole bound,
        sym l.file,
        sym l.records,
      )

-- Opening the file of a log that satisfies the invariant gives a log that satisfies it, with the
-- same file and the same records.
pub open_file-IsLog :
    (s : WalState)
    → IsLog s
    → IsLog (open_file s.file)
      × ((open_file s.file).file ≡ s.file)
      × ((open_file s.file).records ≡ s.records)
open_file-IsLog s l =
    let whole : s.file ++ [] ≡ s.file = append-nil s.file in
    rw whole at (reopen s [] l (λ fuel idx. read_groups-nil fuel idx (records_of l.groups) _))

-- A crash in the middle of an append: the file of a log that satisfies the invariant is followed by
-- a proper prefix `front` of the bytes of a group of one record. Opening it gives a log that
-- satisfies the invariant, with the records and the file from before the append.
pub open_file-torn_append :
    (s : WalState) (r : WalRecord) (front back : List ℕ) (x : ℕ)
    → IsLog s
    → IsFitting r
    → encode_group (r.page_id, r ∷ []) ≡ front ++ (x ∷ back)
    → IsLog (open_file (s.file ++ front))
      × ((open_file (s.file ++ front)).file ≡ s.file)
      × ((open_file (s.file ++ front)).records ≡ s.records)
open_file-torn_append s r front back x l fits e = reopen s front l (λ fuel idx.
    read_groups_cut r.page_id r front back x (single-IsGroup r fits) e fuel idx
      (records_of l.groups) (gather l.groups []))
