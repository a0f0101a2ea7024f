-- ===== src/BTree/Tree/Locks/Path.antt =====
-- Write locks from the root down a path whose nodes no one holds.
use quickstep.Base.{
  ℕ, zero, suc, ◌+◌, ◌%◌, ◌^◌, ◌<◌, ◌≤◌, ◌≡◌, ◌≢◌, inl, inr, refl, ap, sym, ◌∙◌, arith,
}
use quickstep.Base.{List, [], ◌∷◌, some, true, false, Bool, ◌==◌, ==_iff, Bool-cases}
use quickstep.BTree.{is_locked_or_obsolete}
use quickstep.BTree.Search.{search_for_inner}
use quickstep.BTree.Tree.{BpTree}
use quickstep.BTree.Tree.Traverse.{read_inner, read_version}
use quickstep.BTree.Tree.Versions.{upgrade_version}
use quickstep.BTree.Tree.Parents.{LockedInner}
use quickstep.BTree.Tree.Locks.{locked, set_vlock, write_inner, upgrade_inner}
use quickstep.BTree.Tree.Locks.{lock_down}

-- The nodes of the path from a level on, as they are locked.
abbrev pub levels_from : (ℕ → ℕ) → ℕ → ℕ → List LockedInner
levels_from way l zero = []
levels_from way l (suc n) = record { level = l; node = way l } ∷ levels_from way (suc l) n

-- `way l` is the node of level `l` on the path of the key, and no one holds those below `top`.
pub record IsWay (t : BpTree) (way : ℕ → ℕ) (key : List ℕ) (top : ℕ) : Type 0 where
  pub finds :
      (l : ℕ)
      → suc (suc l) ≤ top
      → search_for_inner (t.slab (way (suc (suc l)))) key ≡ some (way (suc l))
  pub unlocked : (l : ℕ) → 0 < l → l < top → is_locked_or_obsolete (t.vlocks (way l)) ≡ false
  pub distinct : (l m : ℕ) → 0 < l → l < m → m ≤ top → way l ≢ way m

-- The words of the nodes below `top` have moved on once, and nothing else has changed.
pub record IsHeld (t t' : BpTree) (way : ℕ → ℕ) (top : ℕ) : Type 0 where
  pub held : (l : ℕ) → 0 < l → l < top → t'.vlocks (way l) ≡ (t.vlocks (way l) + 2) % 2 ^ 64
  pub others : (j : ℕ) → ((l : ℕ) → 0 < l → l < top → j ≢ way l) → t'.vlocks j ≡ t.vlocks j
  pub same_slab : (j : ℕ) → t'.slab j ≡ t.slab j
  pub same_root : t'.root ≡ t.root
  pub same_root_vlock : t'.root_vlock ≡ t.root_vlock

pub write_inner-unlocked :
    (id : ℕ) (t : BpTree)
    → is_locked_or_obsolete (t.vlocks id) ≡ false
    → write_inner false id t ≡ some (set_vlock id ((t.vlocks id + 2) % 2 ^ 64) t)
unfolding write_inner read_inner read_version upgrade_inner upgrade_version
write_inner-unlocked id t free =
    let same : (t.vlocks id == t.vlocks id) ≡ true = (==_iff (t.vlocks id) (t.vlocks id)).1 refl in
    rw (free, write_inner) (rw (same, upgrade_inner) refl)

pub other_word : (id j v : ℕ) (t : BpTree) → j ≢ id → (set_vlock id v t).vlocks j ≡ t.vlocks j
unfolding set_vlock
other_word id j v t other = ground (arith, other)

pub own_word : (id v : ℕ) (t : BpTree) → (set_vlock id v t).vlocks id ≡ v
unfolding set_vlock
own_word id v t = ground arith

-- The node of the level `top` is locked.
pub IsWay-set_vlock :
    (t : BpTree) (way : ℕ → ℕ) (key : List ℕ) (top v : ℕ)
    → IsWay t way key top
    → IsWay (set_vlock (way top) v t) way key top
unfolding set_vlock
IsWay-set_vlock t way key top v h = record {
  finds = h.finds;
  unlocked = λ l some_level below.
      ap is_locked_or_obsolete
        (other_word (way top) (way l) v t (h.distinct l top some_level below (omega arith)))
      ∙ h.unlocked l some_level below;
  distinct = h.distinct;
}

IsWay-below :
    (t : BpTree) (way : ℕ → ℕ) (key : List ℕ) (top : ℕ)
    → IsWay t way key (suc top)
    → IsWay t way key top
IsWay-below t way key top h = record {
  finds = λ l low. h.finds l (omega (arith, low));
  unlocked = λ l some_level below. h.unlocked l some_level (omega (arith, below));
  distinct = λ l m some_level before low. h.distinct l m some_level before (omega (arith, low));
}

IsHeld-refl : (t : BpTree) (way : ℕ → ℕ) → IsHeld t t way 1
IsHeld-refl t way = record {
  held = λ l some_level below. absurd (omega (arith, some_level, below));
  others = λ j out. refl;
  same_slab = λ j. refl;
  same_root = refl;
  same_root_vlock = refl;
}

pub IsHeld-set_vlock :
    (t t' : BpTree) (way : ℕ → ℕ) (key : List ℕ) (top : ℕ)
    → 0 < top
    → IsWay t way key top
    → IsHeld (set_vlock (way top) ((t.vlocks (way top) + 2) % 2 ^ 64) t) t' way top
    → IsHeld t t' way (suc top)
unfolding set_vlock
IsHeld-set_vlock t t' way key top some_level h s =
    let v = (t.vlocks (way top) + 2) % 2 ^ 64 in
    record {
      held = λ l positive below. elim (Bool-cases (l == top)) [
        | inl same ↦
            let here : l ≡ top = (==_iff l top).0 same in
            ap (λ i. t'.vlocks (way i)) here
            ∙ s.others (way top)
                (λ i high low equal. h.distinct i top high low (omega arith) (sym equal))
            ∙ own_word (way top) v t
            ∙ ap (λ i. (t.vlocks (way i) + 2) % 2 ^ 64) (sym here)
        | inr other ↦
            let low : l < top = ground (arith, other, below) in
            s.held l positive low
            ∙ ap (λ w. (w + 2) % 2 ^ 64)
                (other_word (way top) (way l) v t (h.distinct l top positive low (omega arith)))
      ];
      others = λ j out.
          s.others j (λ l high low. out l high (omega (arith, low)))
          ∙ other_word (way top) j v t (out top some_level (omega arith));
      same_slab = s.same_slab;
      same_root = s.same_root;
      same_root_vlock = s.same_root_vlock;
    }

pub lock_down-IsHeld :
    (weak : ℕ → Bool) (way : ℕ → ℕ) (key : List ℕ) (root_lock : Bool) (n k : ℕ) (t : BpTree)
    → ((l : ℕ) → l ≤ n → weak l ≡ false)
    → IsWay t way key (suc n)
    → (t' : BpTree) × (lock_down weak
          (suc n)
          (way (suc n))
          key
          root_lock
          (levels_from way (suc (suc n)) k)
          t
        ≡ locked (record { root_lock = root_lock; chain = levels_from way 1 (suc n + k) }) t')
      × IsHeld t t' way (suc n)
unfolding lock_down
lock_down-IsHeld weak way key root_lock zero k t succeed h =
    let same_size : suc k ≡ 1 + k = omega arith in
    (
      t,
      ap (λ c. locked (record { root_lock = root_lock; chain = levels_from way 1 c }) t) same_size,
      IsHeld-refl t way,
    )
lock_down-IsHeld weak way key root_lock (suc n) k t succeed h =
    let id = way (suc n) in
    let t₁ = set_vlock id ((t.vlocks id + 2) % 2 ^ 64) t in
    let below = IsWay-below t way key (suc n) h in
    let (t', locks, s) =
      lock_down-IsHeld weak way key root_lock n (suc k) t₁ (λ l low. succeed l (omega (arith, low)))
        (IsWay-set_vlock t way key (suc n) ((t.vlocks id + 2) % 2 ^ 64) below) in
    let same_size : suc n + suc k ≡ suc (suc n) + k = omega arith in
    (
      t',
      rw (h.finds n (omega arith), succeed (suc n) (omega arith), lock_down)
          (rw (write_inner-unlocked id t (h.unlocked (suc n) (omega arith) (omega arith))) (
            locks
            ∙ ap (λ c. locked (record { root_lock = root_lock; chain = levels_from way 1 c }) t')
                same_size)),
      IsHeld-set_vlock t t' way key (suc n) (omega arith) below s,
    )
