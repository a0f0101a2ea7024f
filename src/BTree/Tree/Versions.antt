-- ===== src/BTree/Tree/Versions.antt =====
-- The version word of a node, or of the root: readers that check it again, and one writer.
use quickstep.Base.{
  ℕ, ◌+◌, ◌*◌, ◌%◌, ◌^◌, ◌<◌, ◌≡◌, refl, ap, sym, ◌∙◌, arith, true≢false, inl, inr, Bool-cases,
}
use quickstep.Base.{Option, none, some, Bool, true, false, ◌==◌, ==_iff, if◌then◌else◌}
use quickstep.BTree.{BpNode, is_locked_or_obsolete}

-- `upgrade`: the exchange of the word that a reader has seen, which may also fail for no reason
-- (`compare_exchange_weak`): that is `weak`. `none` is `BPRestart`.
unfoldable pub upgrade_version : Bool → ℕ → ℕ → Option ℕ
upgrade_version weak version vlock =
    if weak then none else if vlock == version then some ((version + 2) % 2 ^ 64) else none

-- The two `drop`s of a write guard.
unfoldable pub drop_lock : ℕ → ℕ
drop_lock vlock = (vlock + 2) % 2 ^ 64

-- `check_or_restart`
unfoldable pub check_version : ℕ → ℕ → Bool
check_version version vlock = version == vlock

-- A node with its word.
pub record Cell : Type 0 where
  pub vlock : ℕ
  pub node : BpNode

-- What the threads do: a reader that has seen an unlocked word gets the lock, and who has it changes
-- the node and drops the lock.
pub data Step (c : Cell) : Cell → Type 0 where
  take_lock :
      {c' : Cell} (weak : Bool) (seen : ℕ)
      → is_locked_or_obsolete seen ≡ false
      → upgrade_version weak seen c.vlock ≡ some c'.vlock
      → c'.node ≡ c.node
      → Step c c'
  change : {c' : Cell} → is_locked_or_obsolete c.vlock ≡ true → c'.vlock ≡ c.vlock → Step c c'
  leave_lock :
      {c' : Cell}
      → is_locked_or_obsolete c.vlock ≡ true
      → c'.vlock ≡ drop_lock c.vlock
      → c'.node ≡ c.node
      → Step c c'

pub data Steps (c : Cell) : Cell → Type 0 where
  here : Steps c c
  next : {m c' : Cell} → Steps c m → Step m c' → Steps c c'

-- How often the word moves on.
abbrev pub moves : {c c' : Cell} → Step c c' → ℕ
moves (take_lock weak seen free takes same) = 1
moves (change held same) = 0
moves (leave_lock held drops same) = 1

abbrev pub all_moves : {c c' : Cell} → Steps c c' → ℕ
all_moves here = 0
all_moves (next before s) = all_moves before + moves s

step_version :
    {c c' : Cell} (s : Step c c') → c.vlock < 2 ^ 64 → c'.vlock ≡ (c.vlock + 2 * moves s) % 2 ^ 64
unfolding upgrade_version drop_lock
step_version (take_lock weak seen free takes same) small = ground (arith, takes)
step_version (change held same) small = omega (arith, same, small)
step_version (leave_lock held drops same) small = omega (arith, drops)

steps_version :
    {c c' : Cell} (ss : Steps c c')
    → c.vlock < 2 ^ 64
    → (c'.vlock < 2 ^ 64) × (c'.vlock ≡ (c.vlock + 2 * all_moves ss) % 2 ^ 64)
steps_version here small = omega (arith, small)
steps_version (next before s) small =
    let (inside, moved) = steps_version before small in
    omega (arith, inside, moved, step_version s inside)

-- A step that does not move the word of an unlocked node changes nothing.
step_still :
    {c c' : Cell} (s : Step c c')
    → moves s ≡ 0
    → is_locked_or_obsolete c.vlock ≡ false
    → (c'.vlock ≡ c.vlock) × (c'.node ≡ c.node)
step_still (take_lock weak seen free takes same) still unlocked = absurd (omega (arith, still))
step_still (change held same) still unlocked = absurd (true≢false (sym held ∙ unlocked))
step_still (leave_lock held drops same) still unlocked = absurd (omega (arith, still))

steps_still :
    {c c' : Cell} (ss : Steps c c')
    → all_moves ss ≡ 0
    → is_locked_or_obsolete c.vlock ≡ false
    → (c'.vlock ≡ c.vlock) × (c'.node ≡ c.node)
steps_still here still unlocked = (refl, refl)
steps_still (next before s) still unlocked =
    let (word, node) = steps_still before (omega (arith, still)) unlocked in
    let (word', node') =
      step_still s (omega (arith, still)) (ap is_locked_or_obsolete word ∙ unlocked) in
    (word' ∙ word, node' ∙ node)

no_step : {c c' : Cell} (s : Step c c') → moves s ≡ 0 → is_locked_or_obsolete c.vlock ≡ false → ⊥
no_step (take_lock weak seen free takes same) still unlocked = omega (arith, still)
no_step (change held same) still unlocked = true≢false (sym held ∙ unlocked)
no_step (leave_lock held drops same) still unlocked = omega (arith, still)

-- A reader sees an unlocked word of 64 bits, and then other threads take and leave the lock and change
-- the node, in at least one step, so that the word moves on fewer than 2 ^ 63 times. When the reader
-- checks the word again, the check fails.
pub check_version-Step :
    {c m m' c' : Cell} (before : Steps c m) (s : Step m m') (behind : Steps m' c')
    → is_locked_or_obsolete c.vlock ≡ false
    → c.vlock < 2 ^ 64
    → all_moves before + moves s + all_moves behind < 2 ^ 63
    → check_version c.vlock c'.vlock ≡ false
unfolding check_version
check_version-Step {c} {m} {m'} {c'} before s behind unlocked small few =
    elim (Bool-cases (check_version c.vlock c'.vlock)) [
      | inr fails ↦ fails
      | inl check ↦
          let (inside, moved) = steps_version before small in
          let (inside', moved') = steps_version (next before s) small in
          let (inside'', moved'') = steps_version behind inside' in
          let same : c.vlock ≡ c'.vlock = (==_iff c.vlock c'.vlock).0 check in
          let still : all_moves before + moves s ≡ 0 =
            omega (arith, moved', moved'', same, few, small) in
          let word = (steps_still before (omega (arith, still)) unlocked).0 in
          absurd (no_step s (omega (arith, still)) (ap is_locked_or_obsolete word ∙ unlocked))
    ]
