-- ===== src/Wal/Reader/Torn.antt =====
-- A group that was cut off by a crash.
use quickstep.Base.{ℕ, zero, suc, ◌≤◌, ◌≡◌, refl, ◌∙◌, arith, Option-cases}
use quickstep.Base.{List, [], ◌∷◌, ◌++◌, none, some, inl, inr, length, get_or, take, drop}
use quickstep.Base.{length-append, length-drop, append-nil, get_or-append_of_lt}
use quickstep.Base.{take-append_of_le, drop-append_of_le}
use quickstep.Base.Bytes.{from_le}
use quickstep.Wal.Record.{WalRecord, group_marker}
use quickstep.Wal.Codec.{write_payloads, read_record}
use quickstep.Wal.Codec.Prefix.{read_record-append}
use quickstep.Wal.Reader.{read_group, read_groups}
use quickstep.Wal.Reader.Groups.{IsGroup, encode_group, group_header, read_record-first}

-- The loop stops at the end of the bytes.
pub read_groups-nil :
    (fuel idx : ℕ) (records : List WalRecord) (pages : List (ℕ × ℕ))
    → read_groups fuel [] idx records pages
      ≡ record { records = records; page_bytes = pages; valid_idx = idx }
unfolding read_groups
read_groups-nil zero idx records pages = refl
read_groups-nil (suc fuel) idx records pages = ground (arith, append-nil records)

-- A proper prefix of the bytes of a record is no record.
read_record_cut :
    (page : ℕ) (r : WalRecord) (bytes front back : List ℕ) (x : ℕ)
    → read_record page bytes ≡ some (r, [])
    → bytes ≡ front ++ (x ∷ back)
    → read_record page front ≡ none
read_record_cut page r bytes front back x h e = elim (Option-cases (read_record page front)) [
  | inl gone ↦ gone
  | inr ((r', rest), found) ↦
      ground (
        arith,
        read_record-append page front (x ∷ back) r' rest found,
        length-append rest (x ∷ back),
      )
]

module _ (page : ℕ) (r : WalRecord) (front back : List ℕ) (x : ℕ) (h : IsGroup (page, r ∷ []))
    (e : encode_group (page, r ∷ []) ≡ front ++ (x ∷ back)) where
  -- With its header whole, the cut group shows the same header, and part of the payload.
  cut_header :
      13 ≤ length front
      → (get_or front 0 0 ≡ group_marker)
        × (from_le (take 8 (drop 1 front)) ≡ page)
        × (from_le (take 4 (drop 8 (drop 1 front))) ≡ 1)
        × ((write_payloads (r ∷ [])).0 ++ [] ≡ drop 4 (drop 8 (drop 1 front)) ++ (x ∷ back))
  cut_header long =
      let b₁ : List ℕ = drop 1 front in
      let b₂ : List ℕ = drop 8 b₁ in
      let whole : encode_group (page, r ∷ []) ++ [] ≡ front ++ (x ∷ back) = append-nil _ ∙ e in
      ground (
        arith,
        rw whole at (group_header page (r ∷ []) [] h),
        length-drop 1 front,
        length-drop 8 b₁,
        get_or-append_of_lt 0 front (x ∷ back) 0,
        drop-append_of_le 1 front (x ∷ back),
        take-append_of_le 8 b₁ (x ∷ back),
        drop-append_of_le 8 b₁ (x ∷ back),
        take-append_of_le 4 b₂ (x ∷ back),
        drop-append_of_le 4 b₂ (x ∷ back),
      )

  cut_payload :
      13 ≤ length front
      → read_group 1 page (drop 4 (drop 8 (drop 1 front))) 0 ≡ record { pushed = []; finish = none }
  unfolding read_group write_payloads
  cut_payload long = rw (
    read_record_cut page r _ (drop 4 (drop 8 (drop 1 front))) back x
        (read_record-first page r [] [] h.fits.0) (cut_header long).3,
    read_group,
  )

  -- The bytes of a group of one record, cut off anywhere: the loop stops in front of them.
  pub read_groups_cut :
      (fuel idx : ℕ) (records : List WalRecord) (pages : List (ℕ × ℕ))
      → read_groups fuel front idx records pages
        ≡ record { records = records; page_bytes = pages; valid_idx = idx }
  unfolding read_groups
  read_groups_cut zero idx records pages = ground arith
  read_groups_cut (suc fuel) idx records pages =
      ground (arith, cut_header, cut_payload, append-nil records)
