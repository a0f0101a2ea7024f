-- ===== src/Wal/Reader/Groups.antt =====
-- A log of whole groups is read back.
use quickstep.Base.{ℕ, suc, ◌+◌, ◌^◌, ◌≤◌, ◌<◌, ◌≡◌, ◌≢◌, refl, ap, arith}
use quickstep.Base.{
  List, [], ◌∷◌, ◌++◌, some, length, get_or, take, drop, All, append_assoc, append-nil,
  length-append,
}
use quickstep.Base.Bytes.{to_le, from_le, from_le-take, drop-to_le, length-to_le}
use quickstep.Wal.Record.{WalRecord, group_marker, group_header_len}
use quickstep.Base.Words.{saturating_add}
use quickstep.Wal.Codec.{
  write_record_payload, write_payloads, write_group, record_size, read_record,
}
use quickstep.Wal.Codec.Lengths.{length-write_record_payload, length-write_payloads}
use quickstep.Wal.Codec.Payload.{IsFitting, read_record-write}
use quickstep.Wal.Reader.{push, read_group, read_groups, add_bytes}

-- A group: the page that its header names, and its records.
abbrev pub Group : Type 0
Group = ℕ × List WalRecord

abbrev pub IsOf : ℕ → WalRecord → Type 0
IsOf page r = (r.page_id ≡ page) × IsFitting r

pub record IsGroup (g : Group) : Type 0 where
  pub filled : g.1 ≢ []
  pub small : length g.1 < 2 ^ 32
  pub page : g.0 < 2 ^ 64
  pub fits : All (IsOf g.0) g.1

unfoldable pub encode_group : Group → List ℕ
encode_group (page, rs) =
    group_marker ∷ (to_le 8 page ++ (to_le 4 (length rs) ++ (write_payloads rs).0))

pub encoded_length :
    (page : ℕ) (rs : List WalRecord)
    → length (encode_group (page, rs)) ≡ group_header_len + (write_payloads rs).1
unfolding encode_group
encoded_length page rs =
    simp (length-append, length-to_le) (omega (arith, length-write_payloads rs))

pub length-encode_single :
    (r : WalRecord) → length (encode_group (r.page_id, r ∷ [])) ≡ 13 + record_size r
unfolding write_payloads
length-encode_single r =
    omega (arith, encoded_length r.page_id (r ∷ []), length-write_record_payload r)

-- `write_group` writes these bytes, and returns their number.
pub write_group-encode_group :
    (g : Group) → IsGroup g → write_group g.0 g.1 ≡ some (encode_group g, length (encode_group g))
unfolding write_group encode_group
write_group-encode_group (page, []) h = absurd (h.filled refl)
write_group-encode_group (page, r ∷ rs) h = ground (arith, encoded_length page (r ∷ rs))

pub read_group_step :
    (left page : ℕ) (bytes : List ℕ) (payload : ℕ) (r : WalRecord) (rest : List ℕ)
    → read_record page bytes ≡ some (r, rest)
    → read_group (suc left) page bytes payload
      ≡ push r (read_group left page rest (saturating_add payload (record_size r)))
unfolding read_group
read_group_step left page bytes payload r rest h = rw (h, read_group)

write_payloads-cons :
    (r : WalRecord) (rs : List WalRecord)
    → (write_payloads (r ∷ rs)).0 ≡ (write_record_payload r).0 ++ (write_payloads rs).0
unfolding write_payloads
write_payloads-cons r rs = refl

pub read_record-first :
    (page : ℕ) (r : WalRecord) (rs : List WalRecord) (rest : List ℕ)
    → IsOf page r
    → read_record page ((write_payloads (r ∷ rs)).0 ++ rest)
      ≡ some (r, (write_payloads rs).0 ++ rest)
read_record-first page r rs rest (e, fits) =
    rw (write_payloads-cons, append_assoc, ← e) (read_record-write r _ fits)

read_group-write :
    (page : ℕ) (rs : List WalRecord) (rest : List ℕ) (payload : ℕ)
    → All (IsOf page) rs
    → payload + length (write_payloads rs).0 < 2 ^ 64
    → read_group (length rs) page ((write_payloads rs).0 ++ rest) payload
      ≡ record { pushed = rs; finish = some (payload + length (write_payloads rs).0, rest) }
read_group-write page [] rest payload h small = unfold read_group write_payloads in ground arith
read_group-write page (r ∷ rs) rest payload (h, hs) small =
    rw (read_group_step _ page _ payload r _ (read_record-first page r rs rest h)) (
      ground (
        arith,
        read_group-write page rs rest (saturating_add payload (record_size r)) hs,
        length-write_record_payload r,
        ap length (write_payloads-cons r rs),
        length-append (write_record_payload r).0 (write_payloads rs).0,
      ))

-- The effect of whole groups on what the loop has gathered.
abbrev pub records_of : List Group → List WalRecord
records_of [] = []
records_of (g ∷ gs) = g.1 ++ records_of gs

abbrev pub encode : List Group → List ℕ
encode [] = []
encode (g ∷ gs) = encode_group g ++ encode gs

pub gather : List Group → List (ℕ × ℕ) → List (ℕ × ℕ)
gather [] m = m
gather (g ∷ gs) m = gather gs (add_bytes g.0 (length (encode_group g)) m)

-- What the reader finds in front of a group.
pub group_header :
    (page : ℕ) (rs : List WalRecord) (rest : List ℕ)
    → IsGroup (page, rs)
    → let bytes = encode_group (page, rs) ++ rest in
      (get_or bytes 0 0 ≡ group_marker)
      × (from_le (take 8 (drop 1 bytes)) ≡ page)
      × (from_le (take 4 (drop 8 (drop 1 bytes))) ≡ length rs)
      × (drop 4 (drop 8 (drop 1 bytes)) ≡ (write_payloads rs).0 ++ rest)
unfolding encode_group
group_header page rs rest h =
    simp (append_assoc, drop-to_le)
      (refl, from_le-take 8 page _ h.page, from_le-take 4 (length rs) _ h.small, refl)

pub read_groups_step :
    (fuel : ℕ) (g : Group) (rest : List ℕ) (idx : ℕ) (records : List WalRecord)
    (pages : List (ℕ × ℕ))
    → IsGroup g
    → length (encode_group g) < 2 ^ 64
    → read_groups (suc fuel) (encode_group g ++ rest) idx records pages
      ≡ read_groups fuel rest
          (idx + length (encode_group g))
          (records ++ g.1)
          (add_bytes g.0 (length (encode_group g)) pages)
unfolding read_groups
read_groups_step fuel (page, rs) rest idx records pages h small = ground (
  arith,
  group_header page rs rest h,
  encoded_length page rs,
  length-write_payloads rs,
  length-append (encode_group (page, rs)) rest,
  read_group-write page rs rest 0 h.fits,
)

-- Reading a log that starts with whole groups: their records are gathered, and the loop goes on
-- behind them.
pub read_groups-encode :
    (gs : List Group) (fuel : ℕ) (rest : List ℕ) (idx : ℕ) (records : List WalRecord)
    (pages : List (ℕ × ℕ))
    → All IsGroup gs
    → length (encode gs) < 2 ^ 64
    → read_groups (length gs + fuel) (encode gs ++ rest) idx records pages
      ≡ read_groups fuel rest
          (idx + length (encode gs))
          (records ++ records_of gs)
          (gather gs pages)
unfolding gather
read_groups-encode [] fuel rest idx records pages h small = rw append-nil (ground arith)
read_groups-encode (g ∷ gs) fuel rest idx records pages (hg, hgs) small = rw append_assoc (
    ground (
      arith,
      length-append (encode_group g) (encode gs),
      read_groups_step (length gs + fuel) g (encode gs ++ rest) idx records pages hg,
      read_groups-encode gs fuel rest (idx + length (encode_group g)) (records ++ g.1)
          (add_bytes g.0 (length (encode_group g)) pages) hgs,
      append_assoc records g.1 (records_of gs),
    ))

-- A group takes a byte at least, so the bytes are fuel enough for the groups.
pub length-le-encode : (gs : List Group) → length gs ≤ length (encode gs)
length-le-encode [] = omega arith
length-le-encode (g ∷ gs) =
    omega (
      arith,
      length-append (encode_group g) (encode gs),
      encoded_length g.0 g.1,
      length-le-encode gs,
    )
