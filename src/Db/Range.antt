-- ===== src/Db/Range.antt =====
-- `range_scan`, and what the `debug_` functions show of a leaf and of the log.
pub mod Sorted
pub mod Stored
mod Examples
use quickstep.Base.{ℕ, zero, suc, ◌+◌, List, [], ◌∷◌, ◌++◌, Bool, Option, none, some, true, false}
use quickstep.Base.{◌==◌, ◌&&◌, leb, not, if◌then◌else◌, map}
use Prim.Native.Nat.{Ordering}
use Ordering.{lt, eq, gt}
use quickstep.Base.Order.{compare_bytes}
use quickstep.Types.NodeMeta
use quickstep.MapTable.Entry.{NodeRef, leaf_ref, mini_page, get_ref}
use quickstep.MapTable.Loops.{Access, read_page_entry}
use quickstep.Node.{Node}
use quickstep.Wal.Manager.State.{leaf_stats}
use mathlib.Core.Option
use quickstep.Db.{Db}
use quickstep.Db.Recovery.{Entries, collect_user_records, collect_fence_keys}

-- `key >= lower && key < upper`
unfoldable pub in_range : List ℕ → List ℕ → List ℕ × List ℕ → Bool
in_range lower upper e =
    not (elim (compare_bytes e.0 lower) [ lt ↦ true | _ ↦ false ])
    && elim (compare_bytes e.0 upper) [ lt ↦ true | _ ↦ false ]

unfoldable pub filter_range : List ℕ → List ℕ → Entries → Entries
filter_range lower upper [] = []
filter_range lower upper (e ∷ es) =
    let rest = filter_range lower upper es in if in_range lower upper e then e ∷ rest else rest

unfoldable pub records_between : Node → List ℕ → List ℕ → Entries
records_between n lower upper = filter_range lower upper (collect_user_records n)

-- The mini-page in the buffer, or the leaf on disk.
unfoldable pub page_of : Db → NodeRef → Node
page_of db (leaf_ref addr) = db.disk addr
page_of db (mini_page i) = db.cache i

-- Other threads leave the word alone, and no exchange fails for no reason.
abbrev pub alone : ℕ → ℕ → Access
alone word i = record { word = word; spurious = false }

-- The loop over `left` pages from `slot` on. `none` is `PageLockFail`.
unfoldable pub scan_pages : ℕ → ℕ → List ℕ → List ℕ → Db → Option Entries
scan_pages zero slot lower upper db = some []
scan_pages (suc left) slot lower upper db =
    let rest = scan_pages left (slot + 1) lower upper db in
    if db.words slot == 0 then rest else elim (read_page_entry (alone (db.words slot))) [
      | none ↦ none
      | some taken ↦ elim rest [
        | none ↦ none
        | some es ↦ some (records_between (page_of db (get_ref (db.words slot))) lower upper ++ es)
      ]
    ]

-- `sort_by`, which is stable: equal keys stay in their order.
unfoldable pub insert_by_key : List ℕ × List ℕ → Entries → Entries
insert_by_key e [] = e ∷ []
insert_by_key e (x ∷ xs) =
    let rest = insert_by_key e xs in elim (compare_bytes e.0 x.0) [ gt ↦ x ∷ rest | _ ↦ e ∷ x ∷ xs ]

unfoldable pub sort_by_key : Entries → Entries
sort_by_key [] = []
sort_by_key (e ∷ es) = insert_by_key e (sort_by_key es)

unfoldable pub range_scan : List ℕ → List ℕ → Db → Option Entries
range_scan lower upper db = elim (compare_bytes upper lower) [
  | gt ↦ elim (scan_pages db.capacity 0 lower upper db) [
    | none ↦ none
    | some results ↦ some (sort_by_key results)
  ]
  | _ ↦ some []
]

pub record DebugLeafSnapshot : Type 0 where
  pub page_id : ℕ
  pub disk_addr : ℕ
  pub keys : List (List ℕ)

unfoldable pub collect_user_keys : Node → List (List ℕ)
collect_user_keys n = map (λ (e : List ℕ × List ℕ). e.0) (collect_user_records n)

unfoldable pub disk_addr_of_ref : Db → NodeRef → ℕ
disk_addr_of_ref db (leaf_ref addr) = addr
disk_addr_of_ref db (mini_page i) = NodeMeta.leaf (db.cache i).header

unfoldable pub debug_leaf_snapshot : ℕ → Db → Option DebugLeafSnapshot
debug_leaf_snapshot page db = elim (read_page_entry (alone (db.words page))) [
  | none ↦ none
  | some taken ↦ some (record {
    page_id = page;
    disk_addr = disk_addr_of_ref db (get_ref (db.words page));
    keys = collect_user_keys (page_of db (get_ref (db.words page)));
  })
]

pub record DebugLeafFences : Type 0 where
  pub page_id : ℕ
  pub disk_addr : ℕ
  pub lower : List ℕ
  pub upper : List ℕ

-- The inner `none` is `PageLockFail`, the outer one an assertion that fails.
unfoldable pub debug_leaf_fences : ℕ → Db → Option (Option DebugLeafFences)
debug_leaf_fences page db = elim (read_page_entry (alone (db.words page))) [
  | none ↦ some none
  | some taken ↦ elim (collect_fence_keys (page_of db (get_ref (db.words page)))) [
    | none ↦ none
    | some fences ↦ some (
        some (record {
          page_id = page;
          disk_addr = disk_addr_of_ref db (get_ref (db.words page));
          lower = fences.0;
          upper = fences.1;
        }))
  ]
]

pub record DebugWalStats : Type 0 where
  pub total_records : ℕ
  pub total_bytes : ℕ
  pub leaf_records : Option ℕ
  pub leaf_bytes : Option ℕ

unfoldable pub debug_wal_stats : Option ℕ → Db → DebugWalStats
debug_wal_stats page db =
    let stats : Option (ℕ × ℕ) = elim page [ none ↦ none | some p ↦ leaf_stats db.wal p ] in
    record {
      total_records = db.wal.total_records;
      total_bytes = db.wal.total_bytes;
      leaf_records = Option.map (λ (s : ℕ × ℕ). s.0) stats;
      leaf_bytes = Option.map (λ (s : ℕ × ℕ). s.1) stats;
    }
