-- ===== src/LockManager.antt =====
-- src/lock_manager.rs: the page locks that a transaction holds until its end. What the page table
-- answers to a call is an argument: whether its loop got the lock.
pub mod Calls
mod Examples
use quickstep.Base.{
  ℕ, List, [], ◌∷◌, Bool, true, false, Option, none, some, ◌==◌, ◌&&◌, if◌then◌else◌,
}

pub data GuardWrapper : Type 0 where
  write read : GuardWrapper

-- `leaf` is the disk page that was loaded under the guard, as its words.
pub record PageGuard : Type 0 where
  pub guard_inner : GuardWrapper
  pub leaf : Option (List ℕ)

pub record LockSlot : Type 0 where
  pub guard : PageGuard
  pub borrowed : Bool

abbrev pub new_slot : GuardWrapper → LockSlot
new_slot inner = record { guard = record { guard_inner = inner; leaf = none }; borrowed = false }

-- `HashMap<u64, Box<LockSlot>>`
abbrev pub Locks : Type 0
Locks = List (ℕ × LockSlot)

unfoldable pub slot_of : ℕ → Locks → Option LockSlot
slot_of page [] = none
slot_of page ((p, s) ∷ locks) = if p == page then some s else slot_of page locks

unfoldable pub put_slot : ℕ → LockSlot → Locks → Locks
put_slot page slot [] = (page, slot) ∷ []
put_slot page slot ((p, s) ∷ locks) =
    if p == page then (p, slot) ∷ locks else (p, s) ∷ put_slot page slot locks

-- `Ok`, the error of the page table, and the assertion that the slot is not borrowed.
pub data Reply : Type 0 where
  handed lock_fail panic : Reply

-- `PageHandle::acquire`. Its assertion is there if `debug` is.
unfoldable pub acquire : Bool → ℕ → LockSlot → Locks → Locks × Reply
acquire debug page slot locks =
    if debug && slot.borrowed
    then (locks, panic)
    else (put_slot page (record slot { borrowed = true }) locks, handed)

-- `PageHandle::drop`
unfoldable pub release : ℕ → Locks → Locks
release page locks = elim (slot_of page locks) [
  | none ↦ locks
  | some slot ↦ put_slot page (record slot { borrowed = false }) locks
]

unfoldable pub insert_write_lock : Bool → ℕ → Locks → Locks × Reply
unfolding acquire
insert_write_lock debug page locks =
    acquire debug page (new_slot write) (put_slot page (new_slot write) locks)

unfoldable pub get_or_acquire_read_lock : Bool → ℕ → Locks → Locks × Reply
get_or_acquire_read_lock granted page locks = elim (slot_of page locks) [
  | some slot ↦ (locks, handed)
  | none ↦ elim granted [
    | true ↦ (put_slot page (new_slot read) locks, handed)
    | false ↦ (locks, lock_fail)
  ]
]

-- `PageGuard::ensure_write`. On an error the read guard stays in place: `none`.
unfoldable pub ensure_write : Bool → PageGuard → Option PageGuard
ensure_write upgraded guard = elim guard.guard_inner [
  | write ↦ some guard
  | read ↦ elim upgraded [ true ↦ some (record guard { guard_inner = write }) | false ↦ none ]
]

unfoldable pub get_upgrade_or_acquire_write_lock : Bool → Bool → Bool → ℕ → Locks → Locks × Reply
unfolding acquire ensure_write
get_upgrade_or_acquire_write_lock debug granted upgraded page locks = elim (slot_of page locks) [
  | none ↦ elim granted [
    | true ↦ acquire debug page (new_slot write) (put_slot page (new_slot write) locks)
    | false ↦ (locks, lock_fail)
  ]
  | some slot ↦ elim (ensure_write upgraded slot.guard) [
    | none ↦ (locks, lock_fail)
    | some guard ↦
        acquire debug page (record slot { guard = guard })
          (put_slot page (record slot { guard = guard }) locks)
  ]
]

-- `GuardWrapper::temp_upgrade`, with what `TmpPageWrite` remembers: whether the guard was a read
-- guard. On an error the read guard stays in place: `none`.
unfoldable pub temp_upgrade : Bool → GuardWrapper → Option (GuardWrapper × Bool)
temp_upgrade upgraded write = some (write, false)
temp_upgrade upgraded read = elim upgraded [ true ↦ some (write, true) | false ↦ none ]

-- `TmpPageWrite::drop`
unfoldable pub drop_tmp : GuardWrapper × Bool → GuardWrapper
drop_tmp (inner, read_original) = elim read_original [ true ↦ read | false ↦ inner ]
