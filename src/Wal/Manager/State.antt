-- ===== src/Wal/Manager/State.antt =====
-- The operations of `WalManager` on `WalState`. Input and output succeed; `none` is a panic.
use quickstep.Base.{ℕ, zero, suc, ◌+◌, List, [], ◌∷◌, ◌++◌, Bool, true, false, not, ◌&&◌}
use quickstep.Base.{Option, none, some, ltb, leb, ◌==◌, if◌then◌else◌, length}
use quickstep.Base.Words.{saturating_add, u64_max}
use quickstep.Wal.Record.{WalRecord, txn_meta_page_id}
use quickstep.Wal.Codec.{write_group}
use quickstep.Wal.File.{manifest_len, set_len, write_manifest, read_manifest, read_records}

pub record LeafWalStats : Type 0 where
  pub count : ℕ
  pub bytes : ℕ

-- `HashMap<u64, LeafWalStats>` as an association list. No result below depends on its order.
abbrev pub LeafCounts : Type 0
LeafCounts = List (ℕ × LeafWalStats)

pub record WalState : Type 0 where
  pub file : List ℕ
  pub records : List WalRecord
  pub leaf_counts : LeafCounts
  pub total_records : ℕ
  pub total_bytes : ℕ
  pub checkpoint_len : ℕ

unfoldable pub lookup : ℕ → LeafCounts → Option LeafWalStats
lookup page [] = none
lookup page ((p, s) ∷ m) = if p == page then some s else lookup page m

-- `entry(page).or_insert(zero)`, changed by `f`.
unfoldable pub update : ℕ → (LeafWalStats → LeafWalStats) → LeafCounts → LeafCounts
update page f [] = (page, f (record { count = 0; bytes = 0 })) ∷ []
update page f ((p, s) ∷ m) = if p == page then (p, f s) ∷ m else (p, s) ∷ update page f m

abbrev pub add_count : ℕ → LeafWalStats → LeafWalStats
add_count n s = record s { count = s.count + n }

abbrev pub add_bytes : ℕ → LeafWalStats → LeafWalStats
add_bytes n s = record s { bytes = saturating_add s.bytes n }

abbrev pub set_bytes : ℕ → LeafWalStats → LeafWalStats
set_bytes n s = record s { bytes = n }

unfoldable pub count_records : List WalRecord → LeafCounts → LeafCounts
count_records [] m = m
count_records (r ∷ rs) m = count_records rs (update r.page_id (add_count 1) m)

unfoldable pub set_page_bytes : List (ℕ × ℕ) → LeafCounts → LeafCounts
set_page_bytes [] m = m
set_page_bytes ((page, bytes) ∷ l) m = set_page_bytes l (update page (set_bytes bytes) m)

-- `WalManager::open`, from the bytes of the file.
unfoldable pub open_file : List ℕ → WalState
open_file bytes =
    let (file₁, manifest) = read_manifest bytes in
    let r = read_records file₁ in
    let valid_len = r.valid_idx in
    let file₂ = if ltb valid_len (length file₁) then set_len valid_len file₁ else file₁ in
    let cut = ltb valid_len manifest in
    record {
      file = if cut then write_manifest file₂ valid_len else file₂;
      records = r.records;
      leaf_counts = set_page_bytes r.page_bytes (count_records r.records []);
      total_records = length r.records;
      total_bytes = valid_len;
      checkpoint_len = if cut then valid_len else manifest;
    }

-- `checked_add` on usize.
unfoldable pub checked_add : ℕ → ℕ → Option ℕ
checked_add a b = if leb (a + b) u64_max then some (a + b) else none

unfoldable pub append_record : WalRecord → WalState → Option WalState
append_record r s = elim (write_group r.page_id (r ∷ [])) [
  | none ↦ none
  | some (bytes, written) ↦ elim (checked_add s.total_bytes written) [
    | none ↦ none
    | some total ↦ some (record {
      file = s.file ++ bytes;
      records = s.records ++ (r ∷ []);
      leaf_counts =
          update r.page_id (add_bytes written) (update r.page_id (add_count 1) s.leaf_counts);
      total_records = s.total_records + 1;
      total_bytes = total;
      checkpoint_len = s.checkpoint_len;
    })
  ]
]

-- The records at the front that are of the page, and those from the first other one on.
unfoldable pub split_run : ℕ → List WalRecord → List WalRecord × List WalRecord
split_run page [] = ([], [])
split_run page (r ∷ rs) =
    let (run, others) = split_run page rs in
    if r.page_id == page then (r ∷ run, others) else ([], r ∷ rs)

-- The loop of `rewrite_records`: each round writes one group, so a round for each record is enough.
unfoldable pub rewrite_loop :
    ℕ → List WalRecord → List ℕ → LeafCounts → Option (List ℕ × LeafCounts)
rewrite_loop zero rs file stats = some (file, stats)
rewrite_loop (suc fuel) [] file stats = some (file, stats)
rewrite_loop (suc fuel) (r ∷ rs) file stats =
    let (run, others) = split_run r.page_id rs in
    elim (write_group r.page_id (r ∷ run)) [
      | none ↦ none
      | some (bytes, written) ↦
          rewrite_loop fuel others (file ++ bytes)
            (update r.page_id (λ s. add_bytes written (add_count (length (r ∷ run)) s)) stats)
    ]

unfoldable pub rewrite_records : List ℕ → List WalRecord → Option (List ℕ × LeafCounts)
rewrite_records file records = rewrite_loop (length records) records (set_len manifest_len file) []

unfoldable pub sum_bytes : ℕ → LeafCounts → ℕ
sum_bytes acc [] = acc
sum_bytes acc ((p, s) ∷ m) = sum_bytes (saturating_add acc s.bytes) m

-- `records.retain(|r| r.page_id != page)`
unfoldable pub retain : ℕ → List WalRecord → List WalRecord
retain page [] = []
retain page (r ∷ rs) = if r.page_id == page then retain page rs else r ∷ retain page rs

unfoldable pub all_other : ℕ → List WalRecord → Bool
all_other page [] = true
all_other page (r ∷ rs) = not (r.page_id == page) && all_other page rs

unfoldable pub checkpoint_page : ℕ → WalState → Option WalState
checkpoint_page page s =
    let kept = retain page s.records in
    if all_other page s.records then some s else elim (rewrite_records s.file kept) [
      | none ↦ none
      | some (file, stats) ↦
          let total = sum_bytes 0 stats in
          some (record {
            file = write_manifest file (manifest_len + total);
            records = kept;
            leaf_counts = stats;
            total_records = length kept;
            total_bytes = total;
            checkpoint_len = manifest_len + total;
          })
    ]

unfoldable pub clear : WalState → WalState
clear s = record {
  file = write_manifest (set_len manifest_len s.file) manifest_len;
  records = [];
  leaf_counts = [];
  total_records = 0;
  total_bytes = 0;
  checkpoint_len = manifest_len;
}

unfoldable pub should_checkpoint_page : WalState → ℕ → ℕ → Bool
should_checkpoint_page s page threshold = elim (lookup page s.leaf_counts) [
  | none ↦ false
  | some stats ↦ leb threshold stats.count
]

unfoldable pub leaf_stats : WalState → ℕ → Option (ℕ × ℕ)
leaf_stats s page = elim (lookup page s.leaf_counts) [
  | none ↦ none
  | some t ↦ some (t.count, t.bytes)
]

-- `filter` and `max_by_key`, which keeps the last of the greatest.
unfoldable pub max_by_bytes : LeafCounts → Option (ℕ × ℕ) → Option (ℕ × ℕ)
max_by_bytes [] best = best
max_by_bytes ((page, s) ∷ m) best = max_by_bytes m (
    if page == txn_meta_page_id then best else elim best [
      | none ↦ some (page, s.bytes)
      | some (p, b) ↦ if leb b s.bytes then some (page, s.bytes) else some (p, b)
    ])

unfoldable pub global_checkpoint_candidate : WalState → ℕ → ℕ → Option ℕ
global_checkpoint_candidate s record_threshold byte_threshold =
    if ltb s.total_records record_threshold && ltb s.total_bytes byte_threshold
    then none
    else elim (max_by_bytes s.leaf_counts none) [ none ↦ none | some (page, b) ↦ some page ]
