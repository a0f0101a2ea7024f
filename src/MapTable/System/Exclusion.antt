-- ===== src/MapTable/System/Exclusion.antt =====
-- A write guard excludes all other guards.
use quickstep.Base.{
  ℕ, ◌+◌, ◌-◌, ◌^◌, ◌≤◌, ◌<◌, ◌≡◌, ◌⊎◌, inl, inr, refl, ap, arith, Bool, true, false,
}
use quickstep.Base.Words.{IsU64}
use quickstep.MapTable.Entry.{state, set_state, set_pending_write, new_write_locked}
use quickstep.MapTable.Entry.{write_lock_state, leaf}
use quickstep.MapTable.Entry.Layout.{Fields, fields, fields-set_state, fields-set_pending_write}
use quickstep.MapTable.Entry.Layout.{
  fields-new_entries, state-lt, new_write_locked-IsU64, leaf-IsU64,
}
use quickstep.MapTable.System.{Page, Step, Steps, read, write, wait, upgrade, drop_read, drop_write}
use quickstep.MapTable.System.{downgrade, set_mini_page, set_leaf, done, next}
use quickstep.MapTable.System.{new_page, new_leaf}

-- The lock state counts the read guards, or says that there is one write guard and no other.
pub record IsExclusive (s : Page) : Type 0 where
  pub word : IsU64 s.word
  pub guards :
      ((state s.word ≡ s.readers) × (s.writers ≡ 0))
      ⊎ ((state s.word ≡ write_lock_state) × (s.writers ≡ 1) × (s.readers ≡ 0))

state_of : (w n : ℕ) → IsU64 w → n < 2 ^ 14 → IsU64 (set_state w n) × (state (set_state w n) ≡ n)
unfolding fields
state_of w n hw hn = let h = fields-set_state w n hw hn in (h.0, ap (λ (f : Fields). f.state) h.1)

state_kept :
    (w : ℕ) (b : Bool)
    → IsU64 w
    → IsU64 (set_pending_write w b) × (state (set_pending_write w b) ≡ state w)
unfolding fields
state_kept w b hw =
    let h = fields-set_pending_write w b hw in (h.0, ap (λ (f : Fields). f.state) h.1)

state_new : (index : ℕ) → index < 2 ^ 48 → state (new_write_locked index) ≡ write_lock_state
unfolding fields
state_new index h = ap (λ (f : Fields). f.state) (fields-new_entries index h).0

state_leaf : (addr : ℕ) → addr < 2 ^ 48 → state (leaf addr) ≡ 0
unfolding fields
state_leaf addr h = ap (λ (f : Fields). f.state) (fields-new_entries addr h).1

-- Every access keeps it.
pub step-IsExclusive : (s t : Page) → Step s t → IsExclusive s → IsExclusive t
step-IsExclusive _ _ (read s free low) h =
    let w = state_of s.word (state s.word + 1) h.word (omega arith) in
    record { word = w.0; guards = ground (arith, h.guards, w.1) }
step-IsExclusive _ _ (write s free) h =
    let w = state_of s.word write_lock_state h.word (omega arith) in
    let p = state_kept (set_state s.word write_lock_state) false w.0 in
    record { word = p.0; guards = ground (arith, h.guards, w.1, p.1) }
step-IsExclusive _ _ (wait s) h =
    let p = state_kept s.word true h.word in
    record { word = p.0; guards = ground (arith, h.guards, p.1) }
step-IsExclusive _ _ (upgrade s held alone) h =
    let w = state_of s.word write_lock_state h.word (omega arith) in
    record { word = w.0; guards = ground (arith, h.guards, w.1) }
step-IsExclusive _ _ (drop_read s held) h =
    let w = state_of s.word (state s.word - 1) h.word (omega (arith, state-lt s.word)) in
    record { word = w.0; guards = ground (arith, h.guards, w.1) }
step-IsExclusive _ _ (drop_write s held) h =
    let w = state_of s.word 0 h.word (omega arith) in
    record { word = w.0; guards = ground (arith, h.guards, w.1) }
step-IsExclusive _ _ (downgrade s true held) h =
    let p = state_kept s.word false h.word in
    let w = state_of (set_pending_write s.word false) 1 p.0 (omega arith) in
    record { word = w.0; guards = ground (arith, h.guards, w.1) }
step-IsExclusive _ _ (downgrade s false held) h =
    let w = state_of s.word 1 h.word (omega arith) in
    record { word = w.0; guards = ground (arith, h.guards, w.1) }
step-IsExclusive _ _ (set_mini_page s index held small) h = record {
  word = new_write_locked-IsU64 index;
  guards = ground (arith, h.guards, state_new index small);
}

Steps-IsExclusive : (s t : Page) → Steps s t → IsExclusive s → IsExclusive t
Steps-IsExclusive _ _ (done s) h = h
Steps-IsExclusive _ _ (next {s} {t} {u} x xs) h =
    Steps-IsExclusive t u xs (step-IsExclusive s t x h)

-- The lock state of a new page counts its guards, if its address fits 48 bits.
pub new_pages-IsExclusive :
    (addr : ℕ) → addr < 2 ^ 48 → IsExclusive (new_page addr) × IsExclusive (new_leaf addr)
new_pages-IsExclusive addr h = (
  record { word = new_write_locked-IsU64 addr; guards = inr (state_new addr h, refl, refl) },
  record { word = leaf-IsU64 addr h; guards = inl (state_leaf addr h, refl) },
)

-- From a page whose lock state counts its guards, through any sequence of accesses other than
-- `set_leaf`: there is at most one write guard, and none beside a read guard.
pub Steps-exclusion :
    (s t : Page) → Steps s t → IsExclusive s → (t.writers ≤ 1) × ((t.writers ≡ 0) ⊎ (t.readers ≡ 0))
Steps-exclusion s t xs h = let g = (Steps-IsExclusive s t xs h).guards in ground arith

-- `set_leaf` under a write guard stores an unlocked word: a second write guard can be given out
-- beside the first.
pub set_leaf-two_writers :
    (s : Page) (addr : ℕ)
    → addr < 2 ^ 48
    → s.writers ≡ 1
    → (t : Page) × Step (set_leaf addr s) t × (t.writers ≡ 2)
unfolding set_leaf
set_leaf-two_writers s addr small one =
    let u : Page = set_leaf addr s in
    (
      record u {
        word = set_pending_write (set_state u.word write_lock_state) false;
        writers = u.writers + 1;
      },
      write u (state_leaf addr small),
      omega arith,
    )
