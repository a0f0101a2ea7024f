-- ===== src/Wal/Manager/Retain.antt =====
-- What the records of a log take, and those that a checkpoint keeps.
use quickstep.Base.{ℕ, ◌+◌, ◌≤◌, ◌≡◌, refl, arith, List, [], ◌∷◌, ◌++◌}
use quickstep.Base.{true, Bool-cases, inl, inr, ◌==◌}
use quickstep.Base.{length, All, All-append, length-append}
use quickstep.Wal.Record.{WalRecord}
use quickstep.Wal.Codec.{record_size, write_payloads}
use quickstep.Wal.Codec.Lengths.{length-write_record_payload}
use quickstep.Wal.Codec.Payload.{IsFitting}
use quickstep.Wal.Reader.Groups.{
  Group, IsOf, IsGroup, encode, encode_group, records_of, encoded_length,
}
use quickstep.Wal.Manager.State.{retain, all_other}

-- The bytes that the records take when each has a group of its own.
abbrev pub bytes_of : List WalRecord → ℕ
bytes_of [] = 0
bytes_of (r ∷ rs) = 13 + record_size r + bytes_of rs

bytes_of-append : (xs ys : List WalRecord) → bytes_of (xs ++ ys) ≡ bytes_of xs + bytes_of ys
bytes_of-append [] ys = omega arith
bytes_of-append (x ∷ xs) ys = omega (arith, bytes_of-append xs ys)

payloads-bytes_of : (rs : List WalRecord) → (write_payloads rs).1 ≤ bytes_of rs
unfolding write_payloads
payloads-bytes_of [] = omega arith
payloads-bytes_of (r ∷ rs) = omega (arith, payloads-bytes_of rs, length-write_record_payload r)

total_of_cons :
    (r : WalRecord) (rs : List WalRecord)
    → (write_payloads (r ∷ rs)).1 ≡ record_size r + (write_payloads rs).1
unfolding write_payloads
total_of_cons r rs = omega (arith, length-write_record_payload r)

pub encode-bytes_of :
    (gs : List Group) → All IsGroup gs → length (encode gs) ≤ bytes_of (records_of gs)
encode-bytes_of [] h = omega arith
encode-bytes_of ((page, []) ∷ gs) (h, hs) = absurd (h.filled refl)
encode-bytes_of ((page, r ∷ rs) ∷ gs) (h, hs) = omega (
  arith,
  length-append (encode_group (page, r ∷ rs)) (encode gs),
  encoded_length page (r ∷ rs),
  total_of_cons r rs,
  payloads-bytes_of rs,
  bytes_of-append rs (records_of gs),
  encode-bytes_of gs hs,
)

fitting : (page : ℕ) (rs : List WalRecord) → All (IsOf page) rs → All IsFitting rs
fitting page [] h = tt
fitting page (r ∷ rs) (h, hs) = (h.1, fitting page rs hs)

pub records_of-IsFitting : (gs : List Group) → All IsGroup gs → All IsFitting (records_of gs)
records_of-IsFitting [] h = tt
records_of-IsFitting ((page, rs) ∷ gs) (h, hs) =
    All-append IsFitting rs (records_of gs) (fitting page rs h.fits) (records_of-IsFitting gs hs)

pub retain-le :
    (page : ℕ) (rs : List WalRecord)
    → (length (retain page rs) ≤ length rs) × (bytes_of (retain page rs) ≤ bytes_of rs)
unfolding retain
retain-le page [] = (omega arith, omega arith)
retain-le page (r ∷ rs) = ground (arith, retain-le page rs)

pub retain-IsFitting :
    (page : ℕ) (rs : List WalRecord) → All IsFitting rs → All IsFitting (retain page rs)
unfolding retain
retain-IsFitting page [] h = tt
retain-IsFitting page (r ∷ rs) (h, hs) = elim (Bool-cases (r.page_id == page)) [
  | inl same ↦ rw same (retain-IsFitting page rs hs)
  | inr other ↦ rw other (h, retain-IsFitting page rs hs)
]

pub retain_of_all_other :
    (page : ℕ) (rs : List WalRecord) → all_other page rs ≡ true → retain page rs ≡ rs
unfolding retain all_other
retain_of_all_other page [] h = refl
retain_of_all_other page (r ∷ rs) h = elim (Bool-cases (r.page_id == page)) [
  | inl same ↦ ground (arith)
  | inr other ↦ ground (arith, retain_of_all_other page rs)
]
