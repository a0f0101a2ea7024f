-- ===== src/Wal/File/Manifest.antt =====
-- The manifest, written and read back; and a log of whole groups behind it.
use quickstep.Base.{ℕ, ◌+◌, ◌-◌, ◌^◌, ◌<◌, ◌≤◌, ◌≡◌, refl, ap, ◌∙◌, arith, List, [], ◌++◌}
use quickstep.Base.{
  true, take, drop, length, All, drop-append, take-append, length-append, replicate,
}
use quickstep.Base.Bytes.{to_le, from_le, from_le-take, drop-to_le, length-to_le}
use quickstep.Wal.Reader.{read_groups}
use quickstep.Wal.Reader.Groups.{Group, IsGroup, encode, records_of, gather, read_groups-encode}
use quickstep.Wal.Reader.Groups.{length-le-encode}
use quickstep.Wal.File.{manifest_magic, manifest_bytes, read_manifest, read_records, same_bytes}

pub length-manifest_bytes : (n : ℕ) → length (manifest_bytes n) ≡ 32
unfolding manifest_bytes
length-manifest_bytes n = simp (length-append, length-to_le)

manifest_fields :
    (n : ℕ)
    → n < 2 ^ 64
    → (same_bytes (take 4 (manifest_bytes n)) manifest_magic ≡ true)
      × (from_le (take 4 (drop 4 (manifest_bytes n))) ≡ 1)
      × (from_le (take 8 (drop 8 (manifest_bytes n))) ≡ n)
unfolding manifest_bytes same_bytes
manifest_fields n hi = (
  refl,
  from_le-take 4 1 _ (omega arith),
  ap (λ (t : List ℕ). from_le (take 8 t)) (drop-to_le 4 1 (to_le 8 n ++ replicate 16 0))
      ∙ from_le-take 8 n _ hi,
)

-- A manifest that holds a length of at least 32 is read back, and the file is left as it is.
pub read-manifest_bytes :
    (n : ℕ) (body : List ℕ)
    → 32 ≤ n
    → n < 2 ^ 64
    → read_manifest (manifest_bytes n ++ body) ≡ (manifest_bytes n ++ body, n)
unfolding read_manifest
read-manifest_bytes n body lo hi = ground (
  arith,
  take-append 32 (manifest_bytes n) body (length-manifest_bytes n),
  length-append (manifest_bytes n) body,
  length-manifest_bytes n,
  manifest_fields n hi,
)

-- The loop over a file of whole groups and a tail at which the reader stops.
pub read_records-encode :
    (n : ℕ) (gs : List Group) (tail : List ℕ)
    → All IsGroup gs
    → length (encode gs) < 2 ^ 64
    → ((fuel idx : ℕ)
        → read_groups fuel tail idx (records_of gs) (gather gs [])
          ≡ record { records = records_of gs; page_bytes = gather gs []; valid_idx = idx })
    → read_records (manifest_bytes n ++ (encode gs ++ tail)) ≡ record {
      records = records_of gs;
      page_bytes = gather gs [];
      valid_idx = 32 + length (encode gs);
    }
unfolding read_records
read_records-encode n gs tail h small stops =
    let fuel : ℕ = length (encode gs ++ tail) - length gs in
    let enough : length (encode gs ++ tail) ≡ length gs + fuel =
      omega (arith, length-append (encode gs) tail, length-le-encode gs) in
    rw (drop-append 32 (manifest_bytes n) (encode gs ++ tail) (length-manifest_bytes n)) (
      ground (
        arith,
        enough,
        read_groups-encode gs fuel tail 0 [] [] h small,
        stops fuel (length (encode gs)),
      ))
