-- ===== src/MapTable/Loops.antt =====
-- The spin loops of `MapTable` and its guards, between other threads: `env i` is what the word holds
-- at the loop's atomic access `i`, and whether a weak exchange fails there for no reason.
pub mod Sound
use quickstep.Base.{
  ℕ, zero, suc, ◌+◌, ◌-◌, List, [], ◌∷◌, Bool, true, false, not, ◌&&◌, Option, none, some,
}
use quickstep.Base.{◌==◌, leb}
use quickstep.MapTable.Entry.{state, set_state, pending_write, set_pending_write, write_lock_state}

pub record Access : Type 0 where
  pub word : ℕ
  pub spurious : Bool

-- `2 ^ 12` in Rust is 14.
abbrev pub spin_retries : ℕ
spin_retries = 14

-- An exchange that succeeded: at which access, the word that was there, and the one stored.
pub record Exchange : Type 0 where
  pub index : ℕ
  pub old : ℕ
  pub new : ℕ

-- `compare_exchange_weak(entry, _)`
unfoldable pub exchanges : Access → ℕ → Bool
exchanges a entry = not a.spurious && (a.word == entry)

unfoldable pub read_loop : ℕ → (ℕ → Access) → ℕ → ℕ → Option Exchange
unfolding exchanges
read_loop zero env i entry = none
read_loop (suc n) env i entry = elim (pending_write entry) [
  | true ↦ read_loop n env i entry
  | false ↦ elim (leb write_lock_state (state entry)) [
    | true ↦ read_loop n env (i + 1) (env i).word
    | false ↦ elim (exchanges (env i) entry) [
      | true ↦ some (record { index = i; old = entry; new = set_state entry (state entry + 1) })
      | false ↦ read_loop n env (i + 1) (env i).word
    ]
  ]
]

-- `none` is `PageLockFail`.
unfoldable pub read_page_entry : (ℕ → Access) → Option Exchange
read_page_entry env = read_loop spin_retries env 1 (env 0).word

-- What a writer leaves: the exchanges that mark it as waiting, and the one that takes the lock.
pub record WriteOutcome : Type 0 where
  pub marks : List Exchange
  pub taken : Option Exchange

abbrev pub mark : Exchange → WriteOutcome → WriteOutcome
mark e o = record o { marks = e ∷ o.marks }

-- After a mark that succeeded the loop goes on with the word from before it.
unfoldable pub write_loop : ℕ → (ℕ → Access) → ℕ → ℕ → WriteOutcome
unfolding exchanges
write_loop zero env i entry = record { marks = []; taken = none }
write_loop (suc n) env i entry =
    let go_on = write_loop n env (i + 1) (env i).word in
    elim (state entry == 0) [
      | true ↦ elim (exchanges (env i) entry) [
        | true ↦ record {
          marks = [];
          taken = some (record {
            index = i;
            old = entry;
            new = set_pending_write (set_state entry write_lock_state) false;
          });
        }
        | false ↦ go_on
      ]
      | false ↦ elim (pending_write entry) [
        | true ↦ go_on
        | false ↦ elim (exchanges (env i) entry) [
          | true ↦
              mark (record { index = i; old = entry; new = set_pending_write entry true }) go_on
          | false ↦ go_on
        ]
      ]
    ]

unfoldable pub write_page_entry : (ℕ → Access) → WriteOutcome
write_page_entry env = write_loop spin_retries env 1 (env 0).word

-- `PageReadGuard::upgrade`: this exchange is not a weak one.
unfoldable pub upgrade_loop : ℕ → (ℕ → Access) → ℕ → ℕ → Option Exchange
upgrade_loop zero env i entry = none
upgrade_loop (suc n) env i entry = elim (state entry == 1) [
  | true ↦ elim ((env i).word == entry) [
    | true ↦ some (record { index = i; old = entry; new = set_state entry write_lock_state })
    | false ↦ upgrade_loop n env (i + 1) (env i).word
  ]
  | false ↦ upgrade_loop n env (i + 1) (env i).word
]

unfoldable pub upgrade : (ℕ → Access) → Option Exchange
upgrade env = upgrade_loop spin_retries env 1 (env 0).word
