-- ===== src/MapTable/System.antt =====
-- The word of one page and the guards for it that exist, changed by one atomic access at a time.
pub mod Exclusion
use quickstep.Base.{ℕ, ◌+◌, ◌-◌, ◌^◌, ◌≤◌, ◌<◌, ◌≡◌, Bool, true, false, Option, none, some}
use quickstep.Base.{leb, ◌==◌, if◌then◌else◌}
use quickstep.MapTable.Entry.{state, set_state, pending_write, set_pending_write, new_write_locked}
use quickstep.MapTable.Entry.{write_lock_state, leaf}

-- The numbers of read and of write guards that were given out and not yet dropped.
pub record Page : Type 0 where
  pub word : ℕ
  pub readers : ℕ
  pub writers : ℕ

-- The successful accesses. A reader or writer that drops, upgrades or downgrades holds a guard.
pub data Step : Page → Page → Type 0 where
  -- `read_page_entry`
  read :
      (s : Page)
      → pending_write s.word ≡ false
      → state s.word < write_lock_state
      → Step s (record s { word = set_state s.word (state s.word + 1); readers = s.readers + 1 })
  -- `write_page_entry`
  write :
      (s : Page)
      → state s.word ≡ 0
      → Step s (record s {
        word = set_pending_write (set_state s.word write_lock_state) false;
        writers = s.writers + 1;
      })
  -- `write_page_entry`, which marks that it waits
  wait : (s : Page) → Step s (record s { word = set_pending_write s.word true })
  -- `PageReadGuard::upgrade`
  upgrade :
      (s : Page)
      → 0 < s.readers
      → state s.word ≡ 1
      → Step s (record {
        word = set_state s.word write_lock_state;
        readers = s.readers - 1;
        writers = s.writers + 1;
      })
  -- `PageReadGuard::drop`
  drop_read :
      (s : Page)
      → 0 < s.readers
      → Step s (record s { word = set_state s.word (state s.word - 1); readers = s.readers - 1 })
  -- `PageWriteGuard::drop`
  drop_write :
      (s : Page)
      → 0 < s.writers
      → Step s (record s { word = set_state s.word 0; writers = s.writers - 1 })
  -- `PageWriteGuard::downgrade`, which writes back the word that it loaded; a waiting mark that was
  -- set in between is lost, if `lost`
  downgrade :
      (s : Page) (lost : Bool)
      → 0 < s.writers
      → Step s (record {
        word = set_state (elim lost [ true ↦ set_pending_write s.word false | false ↦ s.word ]) 1;
        readers = s.readers + 1;
        writers = s.writers - 1;
      })
  -- `PageWriteGuard::set_mini_page`
  set_mini_page :
      (s : Page) (index : ℕ)
      → 0 < s.writers
      → index < 2 ^ 48
      → Step s (record s { word = new_write_locked index })

-- `PageWriteGuard::set_leaf`. It is no constructor of `Step`, so that what holds without it can be
-- said.
unfoldable pub set_leaf : ℕ → Page → Page
set_leaf addr s = record s { word = leaf addr }

pub data Steps : Page → Page → Type 0 where
  done : (s : Page) → Steps s s
  next : {s t u : Page} → Step s t → Steps t u → Steps s u

-- The page that `create_page_entry` makes, with its write guard, and the one of `init_leaf_entry`.
abbrev pub new_page : ℕ → Page
new_page index = record { word = new_write_locked index; readers = 0; writers = 1 }

abbrev pub new_leaf : ℕ → Page
new_leaf disk_addr = record { word = leaf disk_addr; readers = 0; writers = 0 }

-- The id of the new page, the next free one, and the page; `none` is the panic of a full table.
unfoldable pub create_page_entry : ℕ → ℕ → ℕ → Option (ℕ × ℕ × Page)
create_page_entry cap next_free index =
    if leb cap next_free then none else some (next_free, next_free + 1, new_page index)

-- The next free id, and page 0; `none` is the panic of a table without room.
unfoldable pub init_leaf_entry : ℕ → ℕ → Option (ℕ × Page)
init_leaf_entry cap disk_addr = if cap == 0 then none else some (1, new_leaf disk_addr)
