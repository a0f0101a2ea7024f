-- ===== src/Db/Recovery/Outcome.antt =====
-- The outcome of `replay_wal` for one key, and for the records of one transaction.
use quickstep.Base.{ℕ, ◌≡◌, inl, inr, refl, ap, ◌∙◌, arith}
use quickstep.Base.{List, [], ◌∷◌, Option, none, some}
use quickstep.Base.{if◌then◌else◌}
use quickstep.Base.{Bool-cases}
use Prim.Native.Nat.{Ordering}
use Ordering.{eq}
use quickstep.Base.Order.{compare_bytes}
use quickstep.Wal.Record.{WalRecord, WalOp}
use WalOp.{put, tombstone, txn_marker}
use quickstep.Node.Put.Replay.{map_put}
use quickstep.Db.Recovery.{Entries, apply_wal_op, Statuses}
use quickstep.Db.Recovery.{applies, Replayed, replay_records}
use quickstep.Db.Recovery.Entries.{find, find-insert, find-remove}

-- What a record makes of the value of a key.
abbrev pub op_value : WalOp → Option (List ℕ) → Option (List ℕ)
op_value (put value) prior = some value
op_value tombstone prior = none
op_value (txn_marker marker) prior = prior

abbrev pub record_value : List ℕ → WalRecord → Option (List ℕ) → Option (List ℕ)
record_value t r prior = elim (compare_bytes t r.key) [ eq ↦ op_value r.op prior | _ ↦ prior ]

-- The value of one key behind a log.
abbrev pub key_state : Statuses → List ℕ → List WalRecord → Option (List ℕ) → Option (List ℕ)
key_state statuses t [] prior = prior
key_state statuses t (r ∷ rs) prior =
    key_state statuses t rs (if applies statuses r then record_value t r prior else prior)

find-apply_wal_op :
    (t key : List ℕ) (op : WalOp) (es : Entries)
    → find t (apply_wal_op key op es)
      ≡ elim (compare_bytes t key) [ eq ↦ op_value op (find t es) | _ ↦ find t es ]
unfolding apply_wal_op map_put
find-apply_wal_op t key (put value) es = find-insert key value t es
find-apply_wal_op t key tombstone es = find-remove key t es
find-apply_wal_op t key (txn_marker marker) es = ground arith

-- Each key has the value that the records of the log that apply to it give it, one after the other.
pub replay_records-key_state :
    (statuses : Statuses) (rs : List WalRecord) (s : Replayed) (t : List ℕ)
    → find t (replay_records statuses rs s).entries ≡ key_state statuses t rs (find t s.entries)
unfolding replay_records
replay_records-key_state statuses [] s t = refl
replay_records-key_state statuses (r ∷ rs) s t = elim (Bool-cases (applies statuses r)) [
  | inl takes ↦
      rw (takes, replay_records)
        (replay_records-key_state statuses rs
            (record {
              bounds = some (r.lower_fence, r.upper_fence);
              entries = apply_wal_op r.key r.op s.entries;
            })
            t
          ∙ ap (key_state statuses t rs) (find-apply_wal_op t r.key r.op s.entries))
  | inr skips ↦ rw (skips, replay_records) (replay_records-key_state statuses rs s t)
]
