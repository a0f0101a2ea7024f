-- ===== src/Types/RecordType.antt =====
-- `KVRecordType`, the state of one entry of a leaf.
use quickstep.Base.{ℕ, Bool, true, false, ◌≡◌, refl, arith}
use quickstep.Base.{◌↔◌, ◌⊎◌, ◌==◌, if◌then◌else◌}

pub data RecordType : Type 0 where
  insert cache tombstone phantom : RecordType

-- The discriminants.
unfoldable pub to_bits : RecordType → ℕ
to_bits insert = 3
to_bits cache = 1
to_bits tombstone = 2
to_bits phantom = 0

-- `transmute` of two bits.
unfoldable pub from_bits : ℕ → RecordType
from_bits b =
    if b == 3 then insert else if b == 1 then cache else if b == 2 then tombstone else phantom

unfoldable pub is_dirty : RecordType → Bool
is_dirty insert = true
is_dirty tombstone = true
is_dirty cache = true
is_dirty phantom = true

unfoldable pub exists : RecordType → Bool
exists insert = true
exists cache = true
exists tombstone = true
exists phantom = true

pub from_bits-to_bits : (t : RecordType) → from_bits (to_bits t) ≡ t
unfolding from_bits to_bits
from_bits-to_bits insert = refl
from_bits-to_bits cache = refl
from_bits-to_bits tombstone = refl
from_bits-to_bits phantom = refl

-- The table above the declaration in types.rs: which records are dirty, and which exist.
abbrev pub table_dirty : RecordType → Bool
table_dirty insert = true
table_dirty cache = false
table_dirty tombstone = true
table_dirty phantom = false

abbrev pub table_exists : RecordType → Bool
table_exists insert = true
table_exists cache = true
table_exists tombstone = false
table_exists phantom = false

-- `is_dirty` agrees with the documented table exactly on insert and tombstone records, and
-- `exists` exactly on insert and cache records.
pub table_agrees_iff :
    (t : RecordType)
    → ((is_dirty t ≡ table_dirty t) ↔ ((t ≡ insert) ⊎ (t ≡ tombstone)))
      × ((exists t ≡ table_exists t) ↔ ((t ≡ insert) ⊎ (t ≡ cache)))
unfolding is_dirty exists
table_agrees_iff t = ground arith
