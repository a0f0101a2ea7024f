-- ===== src/Wal/File.antt =====
-- The log file as a list of bytes: the manifest in its first 32, the groups behind it.
pub mod Manifest
use quickstep.Base.{ℕ, ◌+◌, ◌-◌, List, [], ◌∷◌, ◌++◌, Bool, true, false, ◌&&◌, max}
use quickstep.Base.{ltb, ◌==◌, if◌then◌else◌, length, take, drop, replicate}
use quickstep.Base.Bytes.{to_le, from_le}
use quickstep.Wal.Record.{WalRecord}
use quickstep.Wal.Reader.{LogRead, read_groups}

abbrev pub manifest_len : ℕ
manifest_len = 32

abbrev pub manifest_version : ℕ
manifest_version = 1

-- b"WALM"
abbrev pub manifest_magic : List ℕ
manifest_magic = 0x57 ∷ 0x41 ∷ 0x4c ∷ 0x4d ∷ []

-- `File::set_len`: cut, or filled up with zeros.
unfoldable pub set_len : ℕ → List ℕ → List ℕ
set_len n file = take n file ++ replicate (n - length file) 0

-- `&header[0..4] != MANIFEST_MAGIC` compares byte by byte.
unfoldable pub same_bytes : List ℕ → List ℕ → Bool
same_bytes [] [] = true
same_bytes [] (b ∷ bs) = false
same_bytes (a ∷ as') [] = false
same_bytes (a ∷ as') (b ∷ bs) = (a == b) && same_bytes as' bs

-- The buffer that `write_manifest` fills.
unfoldable pub manifest_bytes : ℕ → List ℕ
manifest_bytes checkpoint_len =
    manifest_magic ++ (to_le 4 manifest_version ++ (to_le 8 checkpoint_len ++ replicate 16 0))

-- Writes at the start, and leaves the rest of the file alone.
unfoldable pub write_manifest : List ℕ → ℕ → List ℕ
write_manifest file checkpoint_len = manifest_bytes checkpoint_len ++ drop manifest_len file

-- The file afterwards, and the checkpoint length.
unfoldable pub read_manifest : List ℕ → List ℕ × ℕ
read_manifest file =
    let header = take manifest_len file in
    if ltb (length file) manifest_len
    then (write_manifest (set_len manifest_len file) manifest_len, manifest_len)
    else if same_bytes (take 4 header) manifest_magic
        && (from_le (take 4 (drop 4 header)) == manifest_version)
    then (file, max (from_le (take 8 (drop 8 header))) manifest_len)
    else (write_manifest file manifest_len, manifest_len)

unfoldable pub read_records : List ℕ → LogRead
read_records file =
    let bytes = drop manifest_len file in
    let r = read_groups (length bytes) bytes 0 [] [] in
    record r { valid_idx = manifest_len + r.valid_idx }
