-- ===== src/Wal/Record.antt =====
-- The records of the log, and the tags that they are written with.
use quickstep.Base.{ℕ, ◌^◌, ◌-◌, ◌==◌, if◌then◌else◌, List, Option, none, some, ◌≡◌, refl}

pub data EntryKind : Type 0 where
  redo undo : EntryKind

pub data TxnMarker : Type 0 where
  begin commit abort : TxnMarker

pub data WalOp : Type 0 where
  put : (value : List ℕ) → WalOp
  tombstone : WalOp
  txn_marker : TxnMarker → WalOp

pub record WalRecord : Type 0 where
  pub page_id : ℕ
  pub key : List ℕ
  pub lower_fence : List ℕ
  pub upper_fence : List ℕ
  pub kind : EntryKind
  pub txn_id : ℕ
  pub op : WalOp

abbrev pub record_type_put : ℕ
record_type_put = 0

abbrev pub record_type_tombstone : ℕ
record_type_tombstone = 1

abbrev pub record_type_txn_begin : ℕ
record_type_txn_begin = 2

abbrev pub record_type_txn_commit : ℕ
record_type_txn_commit = 3

abbrev pub record_type_txn_abort : ℕ
record_type_txn_abort = 4

abbrev pub txn_meta_page_id : ℕ
txn_meta_page_id = 2 ^ 64 - 1

abbrev pub group_marker : ℕ
group_marker = 0xaa

abbrev pub group_header_len : ℕ
group_header_len = 13

unfoldable pub as_byte : EntryKind → ℕ
as_byte redo = 0
as_byte undo = 1

unfoldable pub from_byte : ℕ → EntryKind
from_byte byte = if byte == 1 then undo else redo

unfoldable pub to_record_type : TxnMarker → ℕ
to_record_type begin = record_type_txn_begin
to_record_type commit = record_type_txn_commit
to_record_type abort = record_type_txn_abort

unfoldable pub from_record_type : ℕ → Option TxnMarker
from_record_type tag =
    if tag == record_type_txn_begin
    then some begin
    else if tag == record_type_txn_commit
    then some commit
    else if tag == record_type_txn_abort
    then some abort
    else none

pub from_byte-as_byte : (k : EntryKind) → from_byte (as_byte k) ≡ k
unfolding from_byte as_byte
from_byte-as_byte redo = refl
from_byte-as_byte undo = refl

pub from_record_type-to_record_type : (m : TxnMarker) → from_record_type (to_record_type m) ≡ some m
unfolding from_record_type to_record_type
from_record_type-to_record_type begin = refl
from_record_type-to_record_type commit = refl
from_record_type-to_record_type abort = refl
