-- ===== src/MapTable/Examples.antt =====
-- The lock of a page on concrete words.
use quickstep.Base.{ℕ, ◌+◌, ◌-◌, ◌*◌, ◌^◌, ◌<◌, ◌≤◌, ◌≡◌, ◌⊎◌, refl, arith, some, false}
use quickstep.MapTable.Entry.{set_state}
use quickstep.MapTable.Loops.{Access, read_page_entry, write_page_entry, upgrade}
use quickstep.MapTable.Loops.Sound.{loops_sound, IsRead, IsWrite, IsUpgrade}
use quickstep.MapTable.System.{Page, Step, Steps, done, next, drop_write, set_leaf}
use quickstep.MapTable.System.{create_page_entry, init_leaf_entry, new_page, new_leaf}
use quickstep.MapTable.System.Exclusion.{new_pages-IsExclusive, Steps-exclusion}
use quickstep.MapTable.System.Exclusion.{set_leaf-two_writers}

created : create_page_entry 4 1 12 ≡ some (1, 2, new_page 12)
unfolding create_page_entry
created = refl

root_created : init_leaf_entry 4 30 ≡ some (1, new_leaf 30)
unfolding init_leaf_entry
root_created = refl

-- The writer of a new page drops its guard.
abbrev dropped : Page
dropped = record {
  word = set_state (new_page 12).word 0;
  readers = (new_page 12).readers;
  writers = (new_page 12).writers - 1;
}

held : 0 < (new_page 12).writers
held = omega arith

drop_once : Steps (new_page 12) dropped
drop_once = next (drop_write (new_page 12) held) (done dropped)

Steps-exclusion_example : (dropped.writers ≤ 1) × ((dropped.writers ≡ 0) ⊎ (dropped.readers ≡ 0))
Steps-exclusion_example =
    Steps-exclusion (new_page 12) dropped drop_once (new_pages-IsExclusive 12 (omega arith)).0

one_writer : (new_page 12).writers ≡ 1
one_writer = refl

set_leaf-two_writers_example : (t : Page) × Step (set_leaf 30 (new_page 12)) t × (t.writers ≡ 2)
set_leaf-two_writers_example = set_leaf-two_writers (new_page 12) 30 (omega arith) one_writer

-- A page at the disk address 7 with no guard.
abbrev free_page : ℕ → Access
free_page i = record { word = 7 * 2 ^ 16 + 2 ^ 15; spurious = false }

loops_sound_example :
    IsRead free_page (read_page_entry free_page)
    × IsWrite free_page (write_page_entry free_page)
    × IsUpgrade free_page (upgrade free_page)
loops_sound_example = loops_sound free_page
