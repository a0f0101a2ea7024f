-- ===== src/MapTable/Entry.antt =====
-- `PageEntry`: | address 48 | is leaf 1 | write pending 1 | lock state 14 |.
pub mod Layout
use quickstep.Base.{ℕ, ◌-◌, ◌%◌, ◌^◌, Bool, if◌then◌else◌, ◌==◌, bit_and, bit_or}
use quickstep.Base.Words.{shl, shr, bit_not, from_bool}

pub data NodeRef : Type 0 where
  leaf_ref : (addr : ℕ) → NodeRef
  mini_page : (index : ℕ) → NodeRef

abbrev pub write_lock_state : ℕ
write_lock_state = 2 ^ 14 - 1

-- `self.0 as u16 & WRITE_LOCK_STATE`
unfoldable pub state : ℕ → ℕ
state entry = bit_and (entry % 2 ^ 16) write_lock_state

unfoldable pub set_state : ℕ → ℕ → ℕ
set_state entry new_state = bit_or (bit_and entry (bit_not write_lock_state)) new_state

unfoldable pub pending_write : ℕ → Bool
pending_write entry = bit_and (shr entry 14) 1 == 1

unfoldable pub set_pending_write : ℕ → Bool → ℕ
set_pending_write entry new = bit_or (bit_and entry (bit_not (shl 1 14))) (shl (from_bool new) 14)

unfoldable pub get_ref : ℕ → NodeRef
get_ref entry =
    if bit_and (shr entry 15) 1 == 1 then leaf_ref (shr entry 16) else mini_page (shr entry 16)

unfoldable pub new_write_locked : ℕ → ℕ
unfolding set_state
new_write_locked index = set_state (shl index 16) write_lock_state

unfoldable pub leaf : ℕ → ℕ
leaf addr = bit_or (shl addr 16) (shl 1 15)
