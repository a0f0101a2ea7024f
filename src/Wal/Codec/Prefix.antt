-- ===== src/Wal/Codec/Prefix.antt =====
-- Reading a record does not look behind it: bytes added at the end join what is left.
use quickstep.Base.{ℕ, ◌≡◌, arith, List, [], ◌∷◌, ◌++◌, some, take, drop, get_or}
use quickstep.Base.{length-append, length-drop, take-append_of_le, drop-append_of_le}
use quickstep.Base.{get_or-append_of_lt}
use quickstep.Base.Bytes.{from_le}
use quickstep.Wal.Record.{WalRecord, EntryKind, from_byte}
use quickstep.Wal.Codec.{read_record, read_body, read_tombstone, read_put, read_marker}

module _ (page_id : ℕ) (kind : EntryKind) (txn_id : ℕ) (more : List ℕ) (r : WalRecord) where
  read_tombstone-append :
      (bytes rest : List ℕ)
      → read_tombstone page_id kind txn_id bytes ≡ some (r, rest)
      → read_tombstone page_id kind txn_id (bytes ++ more) ≡ some (r, rest ++ more)
  unfolding read_tombstone
  read_tombstone-append bytes rest h =
      let b₁ : List ℕ = drop 4 bytes in
      let b₂ : List ℕ = drop 4 b₁ in
      let b₃ : List ℕ = drop 4 b₂ in
      let k : ℕ = from_le (take 4 bytes) in
      let l : ℕ = from_le (take 4 b₁) in
      let u : ℕ = from_le (take 4 b₂) in
      let b₄ : List ℕ = drop k b₃ in
      let b₅ : List ℕ = drop l b₄ in
      ground (
        arith,
        length-append bytes more,
        length-drop 4 bytes,
        length-drop 4 b₁,
        length-drop 4 b₂,
        length-drop k b₃,
        length-drop l b₄,
        take-append_of_le 4 bytes more,
        drop-append_of_le 4 bytes more,
        take-append_of_le 4 b₁ more,
        drop-append_of_le 4 b₁ more,
        take-append_of_le 4 b₂ more,
        drop-append_of_le 4 b₂ more,
        length-append b₃ more,
        take-append_of_le k b₃ more,
        drop-append_of_le k b₃ more,
        take-append_of_le l b₄ more,
        drop-append_of_le l b₄ more,
        take-append_of_le u b₅ more,
        drop-append_of_le u b₅ more,
      )

  read_put-append :
      (bytes rest : List ℕ)
      → read_put page_id kind txn_id bytes ≡ some (r, rest)
      → read_put page_id kind txn_id (bytes ++ more) ≡ some (r, rest ++ more)
  unfolding read_put
  read_put-append bytes rest h =
      let b₁ : List ℕ = drop 4 bytes in
      let b₂ : List ℕ = drop 4 b₁ in
      let b₃ : List ℕ = drop 4 b₂ in
      let b₄ : List ℕ = drop 4 b₃ in
      let k : ℕ = from_le (take 4 bytes) in
      let v : ℕ = from_le (take 4 b₁) in
      let l : ℕ = from_le (take 4 b₂) in
      let u : ℕ = from_le (take 4 b₃) in
      let b₅ : List ℕ = drop k b₄ in
      let b₆ : List ℕ = drop v b₅ in
      let b₇ : List ℕ = drop l b₆ in
      ground (
        arith,
        length-append bytes more,
        length-drop 4 bytes,
        length-drop 4 b₁,
        length-drop 4 b₂,
        length-drop 4 b₃,
        length-drop k b₄,
        length-drop v b₅,
        length-drop l b₆,
        take-append_of_le 4 bytes more,
        drop-append_of_le 4 bytes more,
        take-append_of_le 4 b₁ more,
        drop-append_of_le 4 b₁ more,
        take-append_of_le 4 b₂ more,
        drop-append_of_le 4 b₂ more,
        take-append_of_le 4 b₃ more,
        drop-append_of_le 4 b₃ more,
        length-append b₄ more,
        take-append_of_le k b₄ more,
        drop-append_of_le k b₄ more,
        take-append_of_le v b₅ more,
        drop-append_of_le v b₅ more,
        take-append_of_le l b₆ more,
        drop-append_of_le l b₆ more,
        take-append_of_le u b₇ more,
        drop-append_of_le u b₇ more,
      )

  read_marker-append :
      (tag : ℕ) (bytes rest : List ℕ)
      → read_marker tag page_id kind txn_id bytes ≡ some (r, rest)
      → read_marker tag page_id kind txn_id (bytes ++ more) ≡ some (r, rest ++ more)
  unfolding read_marker
  read_marker-append tag bytes rest h = ground arith

  read_body-append :
      (tag : ℕ) (bytes rest : List ℕ)
      → read_body tag page_id kind txn_id bytes ≡ some (r, rest)
      → read_body tag page_id kind txn_id (bytes ++ more) ≡ some (r, rest ++ more)
  unfolding read_body
  read_body-append tag bytes rest h = ground (
    arith,
    read_tombstone-append bytes rest,
    read_put-append bytes rest,
    read_marker-append tag bytes rest,
  )

-- A record that is read from some bytes is read from any longer ones, with the added bytes left.
pub read_record-append :
    (page_id : ℕ) (bytes more : List ℕ) (r : WalRecord) (rest : List ℕ)
    → read_record page_id bytes ≡ some (r, rest)
    → read_record page_id (bytes ++ more) ≡ some (r, rest ++ more)
unfolding read_record
read_record-append page_id [] more r rest h = cc
read_record-append page_id (tag ∷ bytes) more r rest h =
    let b₁ : List ℕ = drop 1 bytes in
    ground (
      arith,
      length-append bytes more,
      length-drop 1 bytes,
      get_or-append_of_lt 0 bytes more 0,
      drop-append_of_le 1 bytes more,
      take-append_of_le 8 b₁ more,
      drop-append_of_le 8 b₁ more,
      read_body-append page_id (from_byte (get_or bytes 0 0)) (from_le (take 8 b₁)) more r tag
          (drop 8 b₁) rest,
    )
