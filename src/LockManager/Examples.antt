-- ===== src/LockManager/Examples.antt =====
-- The locks of a transaction on concrete pages.
use quickstep.Base.{[], ◌∷◌, true, false}
use quickstep.LockManager.{Locks, write, read, new_slot, get_or_acquire_read_lock}
use quickstep.LockManager.{get_upgrade_or_acquire_write_lock}
use quickstep.LockManager.Calls.{
  IsWriteReply, IsReadReply, write_lock-IsWriteReply, read_lock-IsReadReply,
}

abbrev two_locks : Locks
two_locks = (4, new_slot read) ∷ (9, new_slot write) ∷ []

write_lock-IsWriteReply_example :
    let r = get_upgrade_or_acquire_write_lock true false true 4 two_locks in
    IsWriteReply 4 two_locks r.0 r.1
write_lock-IsWriteReply_example = write_lock-IsWriteReply true false true 4 two_locks

read_lock-IsReadReply_example :
    let r = get_or_acquire_read_lock true 5 two_locks in IsReadReply 5 two_locks r.0 r.1
read_lock-IsReadReply_example = read_lock-IsReadReply true 5 two_locks
