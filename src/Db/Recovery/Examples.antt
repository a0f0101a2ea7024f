-- ===== src/Db/Recovery/Examples.antt =====
-- The replay on concrete leaves and logs.
use quickstep.Base.{ℕ, ◌≡◌, refl, ap, sym, subst, ◌∙◌, arith, List, [], ◌∷◌, none, some, All}
use quickstep.Base.Bytes.{IsByte, from_le, to_le}
use quickstep.Base.Memory.{write_bytes, read_bytes}
use quickstep.Types.KvMeta
use quickstep.Types.NodeMeta
use quickstep.Types.NodeSize.{n128, size_in_bytes, size_in_words, index}
use quickstep.Types.RecordType.{exists}
use quickstep.Wal.Record.{WalRecord, put, txn_marker, commit, redo, txn_meta_page_id}
use quickstep.Wal.Manager.State.{WalState}
use quickstep.Wal.Manager.Open.{opened}
use quickstep.Node.{fence_bounds, set_kv_meta, get_kv_meta, common_prefix}
use quickstep.Node.{entries, entries_from}
use quickstep.Node.Search.Lookup.{value_of, value_of_absent}
use quickstep.Node.Put.Replay.{with_prefix, needed}
use quickstep.Node.Fences.Installed.{placed-fence_bounds}
use quickstep.Node.Examples.{blank, blank_word, fences, fences-IsNode, fences_count, key}
use quickstep.PageOp.{owned_entries, live_entries, to_owned, from_entry, key_values}
use quickstep.PageOp.Split.Refill.{IsFilling}
use quickstep.Db.{Db}
use quickstep.Db.Recovery.{Statuses, collect_user_records, Replayed, Entries}
use quickstep.Db.Recovery.{replay_records, to_map}
use quickstep.Db.Recovery.Page.{IsFenced, IsReplayable, loaded}

pub fences_bounds : fence_bounds fences ≡ (0 ∷ [], 255 ∷ [])
unfolding fences
fences_bounds =
    placed-fence_bounds (0 ∷ []) (255 ∷ []) blank 127 blank_word (omega arith) (omega arith)

pub fences_hold_nothing : collect_user_records fences ≡ []
unfolding collect_user_records owned_entries entries entries_from live_entries to_owned from_entry
    key_values fences NodeMeta.reset_header NodeMeta.set_record_count set_kv_meta index
    size_in_bytes NodeMeta.record_count get_kv_meta KvMeta.typ KvMeta.fence write_bytes read_bytes
    to_le from_le KvMeta.new KvMeta.set_offset exists
fences_hold_nothing = refl

pub fences_values : (t : List ℕ) → All IsByte t → value_of fences t ≡ none
fences_values t ht =
    value_of_absent fences t fences-IsNode.ordered ht
      λ i u same. absurd (omega (arith, fences_count, u.0, u.1))

abbrev put_five : WalRecord
put_five = record {
  page_id = 0;
  key = 5 ∷ [];
  lower_fence = 0 ∷ [];
  upper_fence = 255 ∷ [];
  kind = redo;
  txn_id = 1;
  op = put (7 ∷ []);
}

abbrev commit_marker : WalRecord
commit_marker = record {
  page_id = txn_meta_page_id;
  key = [];
  lower_fence = [];
  upper_fence = [];
  kind = redo;
  txn_id = 1;
  op = txn_marker commit;
}

-- The log of a transaction that has put a value and has committed.
abbrev committed_log : WalState
committed_log = opened 32 ((0, put_five ∷ []) ∷ (txn_meta_page_id, commit_marker ∷ []) ∷ [])

abbrev pub fences_db : Db
fences_db = record {
  capacity = 4;
  words = λ page. 0;
  cache = λ i. blank;
  disk = λ addr. fences;
  wal = committed_log;
}

abbrev pub five_entry : Entries
five_entry = (5 ∷ [], 7 ∷ []) ∷ []

fences_size : NodeMeta.size fences.header ≡ some n128
unfolding fences NodeMeta.size NodeMeta.reset_header NodeMeta.set_record_count set_kv_meta index
    size_in_bytes
fences_size = refl

-- What is left to fill the leaf with.
pub five_fits :
    (es : Entries)
    → es ≡ five_entry
    → (b : List ℕ × List ℕ) → b ≡ (0 ∷ [], 255 ∷ [])
    → IsFilling b.0 b.1 es fences
unfolding with_prefix common_prefix needed size_in_bytes size_in_words index
five_fits es left b same =
    rw (left, same)
      (record {
        size = n128;
        size_of = fences_size;
        header = fences-IsNode.header;
        suffixes = five_entry;
        keys = refl;
        fresh = (key, refl, tt);
        room = omega arith;
      })

abbrev pub nothing : Replayed
nothing = record { bounds = none; entries = [] }

loaded-fences : loaded fences ≡ nothing
unfolding to_map
loaded-fences = ap (λ l. record { bounds = none; entries = to_map l [] }) fences_hold_nothing

-- A log that leaves one record.
pub five_entry-IsReplayable :
    (statuses : Statuses) (rs : List WalRecord)
    → IsFenced (0 ∷ [], 255 ∷ []) rs
    → (replay_records statuses rs nothing).entries ≡ five_entry
    → IsReplayable statuses rs fences
five_entry-IsReplayable statuses rs fenced left =
    let here : (replay_records statuses rs (loaded fences)).entries ≡ five_entry =
      ap (λ s. (replay_records statuses rs s).entries) loaded-fences ∙ left in
    record {
      node = fences-IsNode;
      fenced = subst (λ b. IsFenced b rs) (sym fences_bounds) fenced;
      fits = five_fits _ here _ fences_bounds;
    }
