-- ===== src/Db/Recovery.antt =====
-- `replay_wal`: the log is applied to the leaves on disk.
pub mod Entries
pub mod Records
pub mod Outcome
pub mod Page
pub mod Startup
pub mod Examples
use quickstep.Base.{ℕ, ◌-◌, List, [], ◌∷◌, ◌++◌, Bool, true, false, Option, none, some}
use quickstep.Base.{ltb, leb, ◌+◌, ◌*◌, ◌^◌, ◌==◌, ◌&&◌, if◌then◌else◌}
use Prim.Native.Nat.{Ordering}
use Ordering.{lt, eq, gt}
use quickstep.Base.Order.{compare_bytes}
use quickstep.Types.KvMeta
use quickstep.Types.NodeSize.{leaf_page}
use quickstep.Types.NodeMeta
use quickstep.MapTable.Entry
use quickstep.MapTable.Entry.{NodeRef, leaf_ref, mini_page, get_ref}
use quickstep.MapTable.Loops.{read_page_entry}
use quickstep.Wal.Record.{WalRecord, WalOp, EntryKind, txn_meta_page_id}
use WalOp.{put, tombstone, txn_marker}
use quickstep.Wal.Record.{redo, undo, begin, commit, abort}
use quickstep.Wal.Manager.State.{WalState, clear, open_file}
use quickstep.Wal.Manager.Grouped.{Groups, records_grouped, group_of}
use quickstep.Node.{Node, count, get_kv_meta, get_stored_key_from_meta}
use quickstep.Node.Put.{PutResult, put_done}
use quickstep.Node.Fences.{format_leaf}
use quickstep.PageOp.{owned_entries, key_values}
use quickstep.PageOp.Split.{refill_with}
use quickstep.PageOp.Access.{set_node}
use quickstep.Buffer
use quickstep.BTree.Tree.{has_slab}
use quickstep.Db.{Db}

-- `BTreeMap<Vec<u8>, Vec<u8>>`, as the list of its entries in the order of their keys.
abbrev pub Entries : Type 0
Entries = List (List ℕ × List ℕ)

unfoldable pub insert : List ℕ → List ℕ → Entries → Entries
insert key value [] = (key, value) ∷ []
insert key value ((k, v) ∷ es) =
    let rest = insert key value es in
    elim (compare_bytes key k) [
      | lt ↦ (key, value) ∷ (k, v) ∷ es
      | eq ↦ (key, value) ∷ es
      | gt ↦ (k, v) ∷ rest
    ]

-- A map has a key at most once.
unfoldable pub remove : List ℕ → Entries → Entries
remove key [] = []
remove key ((k, v) ∷ es) =
    let rest = remove key es in elim (compare_bytes key k) [ eq ↦ rest | _ ↦ (k, v) ∷ rest ]

unfoldable pub apply_wal_op : List ℕ → WalOp → Entries → Entries
apply_wal_op key (put value) entries = insert key value entries
apply_wal_op key tombstone entries = remove key entries
apply_wal_op key (txn_marker marker) entries = entries

pub data TxStatus : Type 0 where
  committed aborted : TxStatus

-- `HashMap<u64, TxStatus>`, the entry that was inserted last in front.
abbrev pub Statuses : Type 0
Statuses = List (ℕ × TxStatus)

unfoldable pub status_of : ℕ → Statuses → Option TxStatus
status_of txn [] = none
status_of txn ((t, s) ∷ statuses) = if t == txn then some s else status_of txn statuses

unfoldable pub add_status : WalRecord → Statuses → Statuses
add_status r statuses = elim r.op [
  | put value ↦ statuses
  | tombstone ↦ statuses
  | txn_marker marker ↦ elim marker [
    | begin ↦ statuses
    | commit ↦ (r.txn_id, committed) ∷ statuses
    | abort ↦ (r.txn_id, aborted) ∷ statuses
  ]
]

unfoldable pub txn_statuses : List WalRecord → Statuses → Statuses
txn_statuses [] statuses = statuses
txn_statuses (r ∷ rs) statuses = txn_statuses rs (add_status r statuses)

unfoldable pub is_committed : ℕ → Statuses → Bool
is_committed txn statuses = elim (status_of txn statuses) [ some committed ↦ true | _ ↦ false ]

unfoldable pub is_marker : WalOp → Bool
is_marker (txn_marker marker) = true
is_marker op = false

-- The two `continue`s of the inner loop.
unfoldable pub applies : Statuses → WalRecord → Bool
applies statuses r = elim (is_marker r.op) [
  | true ↦ false
  | false ↦ elim r.kind [
    | redo ↦ is_committed r.txn_id statuses
    | undo ↦ if is_committed r.txn_id statuses then false else true
  ]
]

-- `lower`, `upper` and `entries`; the first two are set together.
pub record Replayed : Type 0 where
  pub bounds : Option (List ℕ × List ℕ)
  pub entries : Entries

unfoldable pub replay_records : Statuses → List WalRecord → Replayed → Replayed
replay_records statuses [] s = s
replay_records statuses (r ∷ rs) s = elim (applies statuses r) [
  | false ↦ replay_records statuses rs s
  | true ↦ replay_records statuses rs (record {
    bounds = some (r.lower_fence, r.upper_fence);
    entries = apply_wal_op r.key r.op s.entries;
  })
]

-- `none` is an assertion that fails.
unfoldable pub collect_fence_keys : Node → Option (List ℕ × List ℕ)
collect_fence_keys n =
    let lower_meta = get_kv_meta n 0 in
    let upper_meta = get_kv_meta n (count n - 1) in
    if leb 2 (count n) && (KvMeta.fence lower_meta && KvMeta.fence upper_meta)
    then some (get_stored_key_from_meta n lower_meta, get_stored_key_from_meta n upper_meta)
    else none

unfoldable pub collect_user_records : Node → List (List ℕ × List ℕ)
collect_user_records n = key_values (owned_entries n)

-- `collect` into the map.
unfoldable pub to_map : List (List ℕ × List ℕ) → Entries → Entries
to_map [] entries = entries
to_map ((key, value) ∷ es) entries = to_map es (insert key value entries)

-- The reset and the `expect` of the replay.
unfoldable pub rewrite_leaf : List ℕ × List ℕ → Entries → Node → Option Node
rewrite_leaf fences entries n = elim (refill_with fences.0 fences.1 entries n) [
  | put_done n' ↦ some n'
  | _ ↦ none
]

unfoldable pub disk_addr_of : NodeRef → Db → ℕ
disk_addr_of (leaf_ref addr) db = addr
disk_addr_of (mini_page i) db = NodeMeta.leaf (db.cache i).header

-- The fences of the last record that applied, or those of the leaf.
unfoldable pub fences_of : Option (List ℕ × List ℕ) → List ℕ × List ℕ → List ℕ × List ℕ
fences_of none base = base
fences_of (some b) base = b

-- The body of the loop over the pages, behind the read of the entry. `none` is a panic.
unfoldable pub replay_leaf : Statuses → NodeRef → List WalRecord → Db → Option Db
replay_leaf statuses node records db =
    let disk_addr = disk_addr_of node db in
    let leaf = db.disk disk_addr in
    elim (collect_fence_keys leaf) [
      | none ↦ none
      | some base ↦
          let start : Replayed = record {
            bounds = none;
            entries = to_map (collect_user_records leaf) [];
          } in
          let r = replay_records statuses records start in
          elim r.entries [
            | [] ↦ some db
            | ◌∷◌ e es ↦
                let fences = fences_of r.bounds base in
                elim (rewrite_leaf fences r.entries leaf) [
                  | none ↦ none
                  | some leaf' ↦
                      let written = record db { disk = set_node db.disk disk_addr leaf' } in
                      elim node [
                        | leaf_ref addr ↦ some written
                        | mini_page i ↦ elim (rewrite_leaf fences r.entries (db.cache i)) [
                          | none ↦ none
                          | some page ↦ some (record written { cache = set_node db.cache i page })
                        ]
                      ]
                ]
          ]
    ]

-- A page without an entry is skipped. No other thread is there yet, and the guard is dropped behind
-- the body.
unfoldable pub replay_page : Statuses → ℕ → List WalRecord → Db → Option Db
replay_page statuses page records db =
    if leb db.capacity page
    then some db
    else if db.words page == 0
    then some db
    else elim (read_page_entry (λ i. record { word = db.words page; spurious = false })) [
      | none ↦ none
      | some taken ↦ replay_leaf statuses (get_ref (db.words page)) records db
    ]

-- The loop over the pages but that of the markers. The order of a `HashMap` is not known; this one
-- is that of the pages.
unfoldable pub replay_pages : Statuses → Groups → Db → Option Db
replay_pages statuses [] db = some db
replay_pages statuses ((page, records) ∷ grouped) db = elim (page == txn_meta_page_id) [
  | true ↦ replay_pages statuses grouped db
  | false ↦ elim (replay_page statuses page records db) [
    | none ↦ none
    | some db' ↦ replay_pages statuses grouped db'
  ]
]

unfoldable pub replay_wal : Db → Option Db
replay_wal db = elim (records_grouped db.wal) [
  | [] ↦ some db
  | ◌∷◌ g gs ↦
      let grouped = records_grouped db.wal in
      let statuses = txn_statuses (group_of txn_meta_page_id grouped) [] in
      elim (replay_pages statuses grouped db) [
        | none ↦ none
        | some db' ↦ some (record db' { wal = clear db'.wal })
      ]
]

unfoldable pub ensure_root_leaf_on_disk : Db → Option Db
ensure_root_leaf_on_disk db =
    if leb 2 (count (db.disk 0)) then some db else elim (format_leaf 0 leaf_page 0 (db.disk 0)) [
      | none ↦ none
      | some leaf ↦ some (record db { disk = set_node db.disk 0 leaf })
    ]

-- `init_leaf_entry`; `none` is its panic.
unfoldable pub init_root_entry : Db → Option Db
init_root_entry db =
    if db.capacity == 0
    then none
    else some (record db { words = λ page. if page == 0 then Entry.leaf 0 else db.words page })

-- Whether the buffer, the tree and the page table can be made for a configuration: the assertions of
-- the buffer, the bytes of the slab in 32 bits, and those of the table in a `Layout`.
unfoldable pub is_allowed : ℕ → ℕ → ℕ → Bool
is_allowed cache_size_lg inner_node_upper_bound capacity = elim (Buffer.new cache_size_lg) [
  | none ↦ false
  | some buffer ↦ has_slab inner_node_upper_bound && ltb capacity (2 ^ 60)
]

-- `none` is a panic.
unfoldable pub new_db : ℕ → ℕ → ℕ → List ℕ → (ℕ → Node) → (ℕ → Node) → Option Db
new_db cache_size_lg inner_node_upper_bound capacity log cache disk =
    let db : Db = record {
      capacity = capacity;
      words = λ page. 0;
      cache = cache;
      disk = disk;
      wal = open_file log;
    } in
    if is_allowed cache_size_lg inner_node_upper_bound capacity
    then elim (ensure_root_leaf_on_disk db) [
      | none ↦ none
      | some db₁ ↦ elim (replay_wal db₁) [ none ↦ none | some db₂ ↦ init_root_entry db₂ ]
    ]
    else none
