-- ===== src/MapTable/Loops/Sound.antt =====
-- The loops change the word only by the accesses of `System`.
use quickstep.Base.{
  ℕ, zero, suc, ◌+◌, ◌<◌, ◌≡◌, refl, arith, true, false, Option, none, some, All, leb,
}
use quickstep.Base.{◌==◌, ==_iff, Bool-cases, inl, inr, []}
use quickstep.MapTable.Entry.{state, set_state, pending_write, set_pending_write, write_lock_state}
use quickstep.MapTable.Loops.{Access, Exchange, WriteOutcome, exchanges, read_loop, read_page_entry}
use quickstep.MapTable.Loops.{write_loop, write_page_entry, upgrade_loop, upgrade, spin_retries}

-- The exchange found the word that it looked for.
abbrev pub IsSeen : (ℕ → Access) → Exchange → Type 0
IsSeen env e = (env e.index).word ≡ e.old

abbrev pub IsRead : (ℕ → Access) → Option Exchange → Type 0
IsRead env none = Unit
IsRead env (some e) =
    IsSeen env e
    × (pending_write e.old ≡ false)
    × (state e.old < write_lock_state)
    × (e.new ≡ set_state e.old (state e.old + 1))

read_loop-IsRead : (n : ℕ) (env : ℕ → Access) (i entry : ℕ) → IsRead env (read_loop n env i entry)
unfolding read_loop exchanges
read_loop-IsRead zero env i entry = tt
read_loop-IsRead (suc n) env i entry = elim (Bool-cases (pending_write entry)) [
  | inl waits ↦ rw (waits, read_loop) (read_loop-IsRead n env i entry)
  | inr free ↦ elim (Bool-cases (leb write_lock_state (state entry))) [
    | inl locked ↦ rw (free, locked, read_loop) (read_loop-IsRead n env (i + 1) (env i).word)
    | inr low ↦ elim (Bool-cases (exchanges (env i) entry)) [
      | inl hit ↦ rw (free, low, hit, read_loop) (ground arith, free, ground arith, refl)
      | inr miss ↦ rw (free, low, miss, read_loop) (read_loop-IsRead n env (i + 1) (env i).word)
    ]
  ]
]

stuck :
    (n : ℕ) (env : ℕ → Access) (i entry : ℕ)
    → pending_write entry ≡ true
    → read_loop n env i entry ≡ none
unfolding read_loop
stuck zero env i entry h = refl
stuck (suc n) env i entry h = rw (h, read_loop) (stuck n env i entry h)

-- A reader that first sees a waiting writer fails, whatever the other threads do to the word
-- afterwards: the loop does not load it again.
pub read_page_entry_of_pending :
    (env : ℕ → Access) → pending_write (env 0).word ≡ true → read_page_entry env ≡ none
unfolding read_page_entry
read_page_entry_of_pending env h = stuck spin_retries env 1 (env 0).word h

abbrev pub IsTaken : (ℕ → Access) → Option Exchange → Type 0
IsTaken env none = Unit
IsTaken env (some e) =
    IsSeen env e
    × (state e.old ≡ 0)
    × (e.new ≡ set_pending_write (set_state e.old write_lock_state) false)

abbrev pub IsMark : (ℕ → Access) → Exchange → Type 0
IsMark env e = IsSeen env e × (e.new ≡ set_pending_write e.old true)

abbrev pub IsWrite : (ℕ → Access) → WriteOutcome → Type 0
IsWrite env o = All (IsMark env) o.marks × IsTaken env o.taken

first_exchange :
    (env : ℕ → Access) (i entry : ℕ)
    → (state entry == 0) ≡ true
    → exchanges (env i) entry ≡ true
    → IsTaken env (
        some (record {
          index = i;
          old = entry;
          new = set_pending_write (set_state entry write_lock_state) false;
        }))
unfolding exchanges
first_exchange env i entry free hit = (ground arith, (==_iff (state entry) 0).0 free, refl)

write_loop-IsWrite :
    (n : ℕ) (env : ℕ → Access) (i entry : ℕ) → IsWrite env (write_loop n env i entry)
unfolding write_loop exchanges
write_loop-IsWrite zero env i entry = (tt, tt)
write_loop-IsWrite (suc n) env i entry =
    let rest = write_loop-IsWrite n env (i + 1) (env i).word in
    elim (Bool-cases (state entry == 0)) [
      | inl free ↦ elim (Bool-cases (exchanges (env i) entry)) [
        | inl hit ↦ rw (free, hit, write_loop) (tt, first_exchange env i entry free hit)
        | inr miss ↦ rw (free, miss, write_loop) rest
      ]
      | inr busy ↦ elim (Bool-cases (pending_write entry)) [
        | inl waits ↦ rw (busy, waits, write_loop) rest
        | inr fresh ↦ elim (Bool-cases (exchanges (env i) entry)) [
          | inl hit ↦ rw (busy, fresh, hit, write_loop) (((ground arith, refl), rest.0), rest.1)
          | inr miss ↦ rw (busy, fresh, miss, write_loop) rest
        ]
      ]
    ]

abbrev pub IsUpgrade : (ℕ → Access) → Option Exchange → Type 0
IsUpgrade env none = Unit
IsUpgrade env (some e) =
    IsSeen env e × (state e.old ≡ 1) × (e.new ≡ set_state e.old write_lock_state)

upgrade_loop-IsUpgrade :
    (n : ℕ) (env : ℕ → Access) (i entry : ℕ) → IsUpgrade env (upgrade_loop n env i entry)
unfolding upgrade_loop
upgrade_loop-IsUpgrade zero env i entry = tt
upgrade_loop-IsUpgrade (suc n) env i entry =
    let rest = upgrade_loop-IsUpgrade n env (i + 1) (env i).word in
    elim (Bool-cases (state entry == 1)) [
      | inl alone ↦ elim (Bool-cases ((env i).word == entry)) [
        | inl hit ↦
            rw (alone, hit, upgrade_loop)
              ((==_iff (env i).word entry).0 hit, (==_iff (state entry) 1).0 alone, refl)
        | inr miss ↦ rw (alone, miss, upgrade_loop) rest
      ]
      | inr others ↦ rw (others, upgrade_loop) rest
    ]

-- Whatever the other threads do to the word, each exchange of `read_page_entry`,
-- `write_page_entry` and `upgrade` replaces the word that is there at that moment, and is one of
-- the accesses of the page: a reader enters only while no writer holds the lock or waits, a writer
-- only while the lock state is 0, and a reader becomes a writer only at the lock state 1; besides,
-- a writer sets the waiting mark.
pub loops_sound :
    (env : ℕ → Access)
    → IsRead env (read_page_entry env)
      × IsWrite env (write_page_entry env)
      × IsUpgrade env (upgrade env)
unfolding read_page_entry write_page_entry upgrade
loops_sound env = (
  read_loop-IsRead spin_retries env 1 (env 0).word,
  write_loop-IsWrite spin_retries env 1 (env 0).word,
  upgrade_loop-IsUpgrade spin_retries env 1 (env 0).word,
)

read_first :
    (n : ℕ) (env : ℕ → Access) (i entry : ℕ)
    → pending_write entry ≡ false
    → state entry ≡ 0
    → exchanges (env i) entry ≡ true
    → read_loop (suc n) env i entry
      ≡ some (record { index = i; old = entry; new = set_state entry 1 })
unfolding read_loop exchanges
read_first n env i entry fresh free hit =
    let low : leb write_lock_state (state entry) ≡ false = ground arith in
    let one : state entry + 1 ≡ 1 = omega arith in rw (fresh, low, hit, one, read_loop) refl

write_first :
    (n : ℕ) (env : ℕ → Access) (i entry : ℕ)
    → state entry ≡ 0
    → exchanges (env i) entry ≡ true
    → write_loop (suc n) env i entry ≡ record {
      marks = [];
      taken = some (record {
        index = i;
        old = entry;
        new = set_pending_write (set_state entry write_lock_state) false;
      });
    }
unfolding write_loop exchanges
write_first n env i entry free hit =
    let zero_state : (state entry == 0) ≡ true = (==_iff (state entry) 0).1 free in
    rw (zero_state, hit, write_loop) refl

-- Without other threads on an unlocked word that no writer waits for, a reader and a writer each
-- get the lock at their first exchange, if that does not fail for no reason.
pub uncontended :
    (env : ℕ → Access)
    → ((i : ℕ) → env i ≡ env 0)
    → (env 0).spurious ≡ false
    → state (env 0).word ≡ 0
    → pending_write (env 0).word ≡ false
    → (read_page_entry env
        ≡ some (record { index = 1; old = (env 0).word; new = set_state (env 0).word 1 }))
      × (write_page_entry env ≡ record {
        marks = [];
        taken = some (record {
          index = 1;
          old = (env 0).word;
          new = set_pending_write (set_state (env 0).word write_lock_state) false;
        });
      })
unfolding read_page_entry write_page_entry exchanges
uncontended env alone weak free fresh =
    let hit : exchanges (env 1) (env 0).word ≡ true = rw alone (ground arith) in
    (read_first 13 env 1 (env 0).word fresh free hit, write_first 13 env 1 (env 0).word free hit)
