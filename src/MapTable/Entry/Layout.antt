-- ===== src/MapTable/Entry/Layout.antt =====
-- The word of a page against a plain record of its fields.
use quickstep.Base.{ℕ, ◌+◌, ◌-◌, ◌*◌, ◌/◌, ◌%◌, ◌^◌, ◌<◌, ◌≡◌, arith, Bool, true, false}
use quickstep.Base.{◌==◌, if◌then◌else◌}
use quickstep.Base.Bits.{and_low, and_outside, or_low, or_gap}
use quickstep.Base.Words.{IsU64, from_bool}
use quickstep.MapTable.Entry
use quickstep.MapTable.Entry.{NodeRef, leaf_ref, mini_page, write_lock_state}

pub record Fields : Type 0 where
  pub node : NodeRef
  pub pending : Bool
  pub state : ℕ

-- What the getters read.
unfoldable pub fields : ℕ → Fields
fields w = record { node = Entry.get_ref w; pending = Entry.pending_write w; state = Entry.state w }

abbrev unpack : ℕ → Fields
unpack w = record {
  node = if w / 2 ^ 15 % 2 == 1 then leaf_ref (w / 2 ^ 16) else mini_page (w / 2 ^ 16);
  pending = w / 2 ^ 14 % 2 == 1;
  state = w % 2 ^ 14;
}

fields-eq-unpack : (w : ℕ) → fields w ≡ unpack w
unfolding fields Entry.get_ref Entry.pending_write Entry.state
fields-eq-unpack w =
    ground (arith, and_low 14 (w % 2 ^ 16), and_low 1 (w / 2 ^ 14), and_low 1 (w / 2 ^ 15))

set_state_sum : (w n : ℕ) → IsU64 w → n < 2 ^ 14 → Entry.set_state w n ≡ w / 2 ^ 14 * 2 ^ 14 + n
unfolding Entry.set_state
set_state_sum w n hw hn = ground (
  arith,
  and_outside 0 14 (2 ^ 50 - 1) w (omega arith),
  and_low 50 (w / 2 ^ 14),
  or_low 14 (w / 2 ^ 14) n,
)

-- `set_state` changes the lock state and no other field, and the result is again a word.
pub fields-set_state :
    (w n : ℕ)
    → IsU64 w
    → n < 2 ^ 14
    → IsU64 (Entry.set_state w n) × (fields (Entry.set_state w n) ≡ record (fields w) { state = n })
fields-set_state w n hw hn =
    rw (set_state_sum w n hw hn)
      (omega arith, rw (fields-eq-unpack, fields-eq-unpack) (ground arith))

set_pending_sum :
    (w : ℕ) (b : Bool)
    → IsU64 w
    → Entry.set_pending_write w b ≡ w / 2 ^ 15 * 2 ^ 15 + from_bool b * 2 ^ 14 + w % 2 ^ 14
unfolding Entry.set_pending_write
set_pending_sum w b hw = ground (
  arith,
  and_outside 14 15 (2 ^ 49 - 1) w (omega arith),
  and_low 49 (w / 2 ^ 15),
  or_gap 14 1 (w / 2 ^ 15) (from_bool b) (w % 2 ^ 14),
)

-- `set_pending_write` changes its bit and no other field, and the result is again a word.
pub fields-set_pending_write :
    (w : ℕ) (b : Bool)
    → IsU64 w
    → IsU64 (Entry.set_pending_write w b)
      × (fields (Entry.set_pending_write w b) ≡ record (fields w) { pending = b })
fields-set_pending_write w true hw =
    rw (set_pending_sum w true hw)
      (omega arith, rw (fields-eq-unpack, fields-eq-unpack) (ground arith))
fields-set_pending_write w false hw =
    rw (set_pending_sum w false hw)
      (omega arith, rw (fields-eq-unpack, fields-eq-unpack) (ground arith))

-- A new entry for a mini-page is write locked, one for a leaf is not locked at all; neither has a
-- writer waiting, and both hold their address, if it fits 48 bits.
pub fields-new_entries :
    (addr : ℕ)
    → addr < 2 ^ 48
    → (fields (Entry.new_write_locked addr)
        ≡ record { node = mini_page addr; pending = false; state = write_lock_state })
      × (fields (Entry.leaf addr) ≡ record { node = leaf_ref addr; pending = false; state = 0 })
unfolding Entry.new_write_locked Entry.leaf
fields-new_entries addr h = (
  rw
      (
        set_state_sum (addr * 2 ^ 16 % 2 ^ 64) write_lock_state (omega arith) (omega arith),
        fields-eq-unpack,
      )
      (ground arith),
  rw fields-eq-unpack (ground (arith, or_low 16 addr (2 ^ 15))),
)

pub state-lt : (w : ℕ) → Entry.state w < 2 ^ 14
unfolding Entry.state
state-lt w = omega (arith, and_low 14 (w % 2 ^ 16))

pub new_write_locked-IsU64 : (index : ℕ) → IsU64 (Entry.new_write_locked index)
unfolding Entry.new_write_locked
new_write_locked-IsU64 index =
    (fields-set_state (index * 2 ^ 16 % 2 ^ 64) write_lock_state (omega arith) (omega arith)).0

pub leaf-IsU64 : (addr : ℕ) → addr < 2 ^ 48 → IsU64 (Entry.leaf addr)
unfolding Entry.leaf
leaf-IsU64 addr h = ground (arith, or_low 16 addr (2 ^ 15))
