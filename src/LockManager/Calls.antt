-- ===== src/LockManager/Calls.antt =====
-- What a transaction holds after a call.
use quickstep.Base.{
  ℕ, ◌≡◌, ◌≢◌, ◌⊎◌, inl, inr, refl, arith, List, [], ◌∷◌, Bool, true, false, Option, none, some,
}
use quickstep.Base.{◌==◌, ◌&&◌, if◌then◌else◌, Option-cases}
use quickstep.LockManager.{
  GuardWrapper, write, read, PageGuard, LockSlot, new_slot, Locks, slot_of, put_slot,
}
use quickstep.LockManager.{Reply, handed, lock_fail, panic, acquire, get_or_acquire_read_lock}
use quickstep.LockManager.{temp_upgrade, drop_tmp}
use quickstep.LockManager.{ensure_write, get_upgrade_or_acquire_write_lock}

slot_of-put_slot :
    (page q : ℕ) (slot : LockSlot) (locks : Locks)
    → slot_of q (put_slot page slot locks) ≡ (if page == q then some slot else slot_of q locks)
unfolding slot_of put_slot
slot_of-put_slot page q slot [] = ground arith
slot_of-put_slot page q slot ((p, s) ∷ locks) = ground (arith, slot_of-put_slot page q slot locks)

-- A slot whose loaded disk page is the one of the slot from before, if there was one.
abbrev pub IsSameLeaf : Option LockSlot → LockSlot → Type 0
IsSameLeaf none after = after.guard.leaf ≡ none
IsSameLeaf (some before) after = after.guard.leaf ≡ before.guard.leaf

abbrev pub IsWriteReply : ℕ → Locks → Locks → Reply → Type 0
IsWriteReply page before after handed =
    ((slot : LockSlot) × (slot_of page after ≡ some slot)
      × (slot.guard.guard_inner ≡ write)
      × (slot.borrowed ≡ true)
      × IsSameLeaf (slot_of page before) slot)
    × ((q : ℕ) → q ≢ page → slot_of q after ≡ slot_of q before)
IsWriteReply page before after lock_fail = after ≡ before
IsWriteReply page before after panic =
    (slot : LockSlot) × (slot_of page before ≡ some slot) × (slot.borrowed ≡ true)

and_right : (a b : Bool) → (a && b) ≡ true → b ≡ true
and_right a b h = ground (arith, h)

handed_write :
    (debug : Bool) (page : ℕ) (guard : PageGuard) (b : Bool) (before : Locks)
    → guard.guard_inner ≡ write
    → IsSameLeaf (slot_of page before) (record { guard = guard; borrowed = true })
    → ((b ≡ true) → IsWriteReply page before before panic)
    → let slot : LockSlot = record { guard = guard; borrowed = b } in
      let r = acquire debug page slot (put_slot page slot before) in
      IsWriteReply page before r.0 r.1
unfolding acquire
handed_write debug page guard b before kind same borrowed =
    let slot : LockSlot = record { guard = guard; borrowed = b } in
    let taken : LockSlot = record { guard = guard; borrowed = true } in
    reply (debug && b) (and_right debug b) (
      (
        taken,
        ground (arith, slot_of-put_slot page page taken (put_slot page slot before)),
        kind,
        refl,
        same,
      ),
      λ q other. ground (
        arith,
        slot_of-put_slot page q taken (put_slot page slot before),
        slot_of-put_slot page q slot before,
      ),
    )
  where
    reply :
        (stop : Bool)
        → ((stop ≡ true) → b ≡ true)
        → IsWriteReply page before
            (put_slot page
              (record { guard = guard; borrowed = true })
              (put_slot page (record { guard = guard; borrowed = b }) before))
            handed
        → let slot : LockSlot = record { guard = guard; borrowed = b } in
          let locks = put_slot page slot before in
          let r : Locks × Reply =
            if stop
            then (locks, panic)
            else (put_slot page (record slot { borrowed = true }) locks, handed) in
          IsWriteReply page before r.0 r.1
    reply true holds done = borrowed (holds refl)
    reply false holds done = done

with_slot :
    (debug granted upgraded : Bool) (page : ℕ) (locks : Locks) (kind : GuardWrapper)
    (l : Option (List ℕ)) (b : Bool)
    → slot_of page locks
      ≡ some (record { guard = record { guard_inner = kind; leaf = l }; borrowed = b })
    → let r = get_upgrade_or_acquire_write_lock debug granted upgraded page locks in
      IsWriteReply page locks r.0 r.1
unfolding get_upgrade_or_acquire_write_lock ensure_write
with_slot debug granted upgraded page locks write l b h =
    rw (h, get_upgrade_or_acquire_write_lock)
      (handed_write debug page (record { guard_inner = write; leaf = l }) b locks refl (rw h refl)
        (λ e. (_, h, e)))
with_slot debug granted true page locks read l b h =
    rw (h, get_upgrade_or_acquire_write_lock)
      (handed_write debug page (record { guard_inner = write; leaf = l }) b locks refl (rw h refl)
        (λ e. (_, h, e)))
with_slot debug granted false page locks read l b h = rw (h, get_upgrade_or_acquire_write_lock) refl

without_slot :
    (debug granted upgraded : Bool) (page : ℕ) (locks : Locks)
    → slot_of page locks ≡ none
    → let r = get_upgrade_or_acquire_write_lock debug granted upgraded page locks in
      IsWriteReply page locks r.0 r.1
unfolding get_upgrade_or_acquire_write_lock
without_slot debug true upgraded page locks h =
    rw (h, get_upgrade_or_acquire_write_lock)
      (handed_write debug page (record { guard_inner = write; leaf = none }) false locks refl
        (rw h refl) (λ e. absurd (ground (arith, e))))
without_slot debug false upgraded page locks h = rw (h, get_upgrade_or_acquire_write_lock) refl

-- `get_upgrade_or_acquire_write_lock`, with or without debug assertions, whatever the page table
-- answers: with a handle, the page has a
-- write guard that is borrowed, a disk page loaded before is kept, and the locks on all other pages
-- are as before; on an error the locks are as before; it panics only if the page was borrowed.
pub write_lock-IsWriteReply :
    (debug granted upgraded : Bool) (page : ℕ) (locks : Locks)
    → let r = get_upgrade_or_acquire_write_lock debug granted upgraded page locks in
      IsWriteReply page locks r.0 r.1
write_lock-IsWriteReply debug granted upgraded page locks =
    elim (Option-cases (slot_of page locks)) [
      | inl absent ↦ without_slot debug granted upgraded page locks absent
      | inr (slot, there) ↦
          with_slot debug granted upgraded page locks slot.guard.guard_inner slot.guard.leaf
            slot.borrowed there
    ]

abbrev pub IsReadReply : ℕ → Locks → Locks → Reply → Type 0
IsReadReply page before after handed =
    (((slot : LockSlot) × (slot_of page before ≡ some slot) × (after ≡ before))
      ⊎ ((slot_of page before ≡ none) × (slot_of page after ≡ some (new_slot read))))
    × ((q : ℕ) → q ≢ page → slot_of q after ≡ slot_of q before)
IsReadReply page before after lock_fail = (after ≡ before) × (slot_of page before ≡ none)
IsReadReply page before after panic = ⊥

-- `get_or_acquire_read_lock` gives the guard that the transaction has for the page, or a new read
-- guard; it fails only if there is none, and leaves the locks on all other pages alone.
pub read_lock-IsReadReply :
    (granted : Bool) (page : ℕ) (locks : Locks)
    → let r = get_or_acquire_read_lock granted page locks in IsReadReply page locks r.0 r.1
unfolding get_or_acquire_read_lock
read_lock-IsReadReply granted page locks = elim (Option-cases (slot_of page locks)) [
  | inl absent ↦ fresh granted absent
  | inr (slot, there) ↦
      rw (there, get_or_acquire_read_lock) (inl (slot, there, refl), λ q other. refl)
]
  where
    fresh :
        (granted' : Bool)
        → slot_of page locks ≡ none
        → let r = get_or_acquire_read_lock granted' page locks in IsReadReply page locks r.0 r.1
    fresh true absent =
        rw (absent, get_or_acquire_read_lock)
          (
            inr (absent, ground (arith, slot_of-put_slot page page (new_slot read) locks)),
            λ q other. ground (arith, slot_of-put_slot page q (new_slot read) locks),
          )
    fresh false absent = rw (absent, get_or_acquire_read_lock) (refl, absent)

-- A temporary upgrade that succeeds holds a write guard, and dropping it restores the guard from
-- before; it fails only on a read guard that the page table does not upgrade.
pub temp_upgrade-drop_tmp :
    (upgraded : Bool) (inner : GuardWrapper)
    → ((temp_upgrade upgraded inner ≡ none) × (inner ≡ read) × (upgraded ≡ false))
      ⊎ ((was_read : Bool) × (temp_upgrade upgraded inner ≡ some (write, was_read))
          × (drop_tmp (write, was_read) ≡ inner))
unfolding temp_upgrade drop_tmp
temp_upgrade-drop_tmp upgraded write = inr (false, refl, refl)
temp_upgrade-drop_tmp true read = inr (true, refl, refl)
temp_upgrade-drop_tmp false read = inl (refl, refl, refl)
