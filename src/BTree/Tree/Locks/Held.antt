-- ===== src/BTree/Tree/Locks/Held.antt =====
-- Write locks from the root, on all nodes of a path, and what is left when they are dropped.
use quickstep.Base.{
  ℕ, zero, suc, ◌+◌, ◌%◌, ◌^◌, ◌<◌, ◌≤◌, ◌≡◌, ◌≢◌, inl, inr, refl, ap, sym, ◌∙◌, arith,
}
use quickstep.Base.{Bool, List, true, false, ◌==◌, ==_iff, Bool-cases}
use quickstep.BTree.{is_locked_or_obsolete}
use quickstep.BTree.Tree.{BpTree, get_root, root_inner}
use quickstep.BTree.Tree.Traverse.{read_root, read_version, at_root}
use quickstep.BTree.Tree.Versions.{upgrade_version, drop_lock}
use quickstep.BTree.Tree.Parents.{WriteLockBundle}
use quickstep.BTree.Tree.Locks.{OpType, locked, set_vlock, upgrade_root, lock_from_point, lock_loop}
use quickstep.BTree.Tree.Locks.{write_lock, drop_chain, drop_bundle}
use quickstep.BTree.Tree.Locks.Path.{levels_from, IsWay, IsHeld, other_word, own_word}
use quickstep.BTree.Tree.Locks.Path.{write_inner-unlocked, IsWay-set_vlock, IsHeld-set_vlock}
use quickstep.BTree.Tree.Locks.Path.{lock_down-IsHeld}

-- The locks of the root and of the nodes from level 1 to `top`.
abbrev pub bundle_of : (ℕ → ℕ) → ℕ → WriteLockBundle
bundle_of way top = record { root_lock = true; chain = levels_from way 1 top }

drop_chain-other :
    (way : ℕ → ℕ) (first n j : ℕ) (t : BpTree)
    → ((l : ℕ) → first ≤ l → l < first + n → j ≢ way l)
    → (drop_chain (levels_from way first n) t).vlocks j ≡ t.vlocks j
unfolding drop_chain
drop_chain-other way first zero j t out = refl
drop_chain-other way first (suc n) j t out =
    drop_chain-other way (suc first) n j _
      (λ l high low. out l (omega (arith, high)) (omega (arith, low)))
    ∙ other_word (way first) j (drop_lock (t.vlocks (way first))) t
        (out first (omega arith) (omega arith))

drop_chain-own :
    (way : ℕ → ℕ) (first n l : ℕ) (t : BpTree)
    → ((i m : ℕ) → first ≤ i → i < m → m < first + n → way i ≢ way m)
    → first ≤ l
    → l < first + n
    → (drop_chain (levels_from way first n) t).vlocks (way l) ≡ drop_lock (t.vlocks (way l))
unfolding drop_chain
drop_chain-own way first zero l t distinct high low = absurd (omega (arith, high, low))
drop_chain-own way first (suc n) l t distinct high low = elim (Bool-cases (l == first)) [
  | inl same ↦
      let here : l ≡ first = (==_iff l first).0 same in
      ap (λ i. (drop_chain (levels_from way first (suc n)) t).vlocks (way i)) here
      ∙ drop_chain-other way (suc first) n (way first) _ (λ m above below.
        distinct first m (omega arith) (omega (arith, above)) (omega (arith, below)))
      ∙ own_word (way first) (drop_lock (t.vlocks (way first))) t
      ∙ ap (λ i. drop_lock (t.vlocks (way i))) (sym here)
  | inr other ↦
      let behind : first < l = ground (arith, other, high) in
      drop_chain-own way (suc first) n l _
        (λ i m above before below.
          distinct i m (omega (arith, above)) before (omega (arith, below)))
        (omega (arith, behind)) (omega (arith, low))
      ∙ ap drop_lock (
          other_word (way first) (way l) (drop_lock (t.vlocks (way first))) t
            (λ equal. distinct first l (omega arith) behind low (sym equal)))
]

drop_chain-root :
    (way : ℕ → ℕ) (first n : ℕ) (t : BpTree)
    → (drop_chain (levels_from way first n) t).root_vlock ≡ t.root_vlock
unfolding drop_chain set_vlock
drop_chain-root way first zero t = refl
drop_chain-root way first (suc n) t = drop_chain-root way (suc first) n _

-- The words of the root and of the nodes up to `top` have moved on twice, so that they are unlocked
-- again, and no other word has changed.
pub record IsReleased (t t' : BpTree) (way : ℕ → ℕ) (top : ℕ) : Type 0 where
  pub path : (l : ℕ) → 0 < l → l ≤ top → t'.vlocks (way l) ≡ (t.vlocks (way l) + 4) % 2 ^ 64
  pub root : t'.root_vlock ≡ (t.root_vlock + 4) % 2 ^ 64
  pub others : (j : ℕ) → ((l : ℕ) → 0 < l → l ≤ top → j ≢ way l) → t'.vlocks j ≡ t.vlocks j

drop_bundle-IsReleased :
    (t t' : BpTree) (way : ℕ → ℕ) (key : List ℕ) (top : ℕ)
    → IsWay t way key top
    → t'.root_vlock ≡ (t.root_vlock + 2) % 2 ^ 64
    → IsHeld (record t { root_vlock = (t.root_vlock + 2) % 2 ^ 64 }) t' way (suc top)
    → IsReleased t (drop_bundle (bundle_of way top) t') way top
unfolding drop_bundle drop_lock
drop_bundle-IsReleased t t' way key top h taken s = record {
  path = λ l some_level low.
      let word =
        drop_chain-own way 1 top l (record t' { root_vlock = (t'.root_vlock + 2) % 2 ^ 64 })
          (λ i m above before below.
            h.distinct i m (omega (arith, above)) before (omega (arith, below)))
          (omega (arith, some_level)) (omega (arith, low)) in
      let mine = s.held l some_level (omega (arith, low)) in omega (arith, word, mine);
  root = omega (
    arith,
    drop_chain-root way 1 top (record t' { root_vlock = (t'.root_vlock + 2) % 2 ^ 64 }),
    taken,
  );
  others = λ j out.
      drop_chain-other way 1 top j (record t' { root_vlock = (t'.root_vlock + 2) % 2 ^ 64 })
        (λ l high low. out l (omega (arith, high)) (omega (arith, low)))
      ∙ s.others j (λ l high low. out l high (omega (arith, low)));
}

-- The root is a node, and neither it nor a node on the path of the key, from the root to the parent of
-- the leaf, is locked; the nodes of the path are different ones. While no other thread runs, and no exchange of
-- the first attempt fails without a reason, the
-- locks from the root are taken at once: on the root and on each node of the path, with its level,
-- from level 1 up. Only their words have changed, each by 2, and when the locks are dropped, each by 4.
pub write_lock-IsHeld :
    (weak : ℕ → ℕ → Bool) (t : BpTree) (way : ℕ → ℕ) (key : List ℕ) (top : ℕ) (op_type : OpType)
    → ((l : ℕ) → l ≤ suc top → weak 0 l ≡ false)
    → get_root t ≡ root_inner (suc top) (way (suc top))
    → is_locked_or_obsolete t.root_vlock ≡ false
    → is_locked_or_obsolete (t.vlocks (way (suc top))) ≡ false
    → IsWay t way key (suc top)
    → (t' : BpTree) × (write_lock weak at_root op_type key t ≡ locked (bundle_of way (suc top)) t')
      × (t'.root_vlock ≡ (t.root_vlock + 2) % 2 ^ 64)
      × IsHeld (record t { root_vlock = (t.root_vlock + 2) % 2 ^ 64 }) t' way (suc (suc top))
      × IsReleased t (drop_bundle (bundle_of way (suc top)) t') way (suc top)
unfolding write_lock lock_loop lock_from_point read_root read_version upgrade_root upgrade_version
    get_root set_vlock
write_lock-IsHeld weak t way key top op_type succeed root free unlocked h =
    let t₁ : BpTree = record t { root_vlock = (t.root_vlock + 2) % 2 ^ 64 } in
    let id = way (suc top) in
    let h₁ : IsWay t₁ way key (suc top) = record {
      finds = h.finds;
      unlocked = h.unlocked;
      distinct = h.distinct;
    } in
    let v = (t.vlocks id + 2) % 2 ^ 64 in
    let (t', locks, s) =
      lock_down-IsHeld (weak 0) way key true top 0 (set_vlock id v t₁)
        (λ l low. succeed l (omega (arith, low))) (IsWay-set_vlock t₁ way key (suc top) v h₁) in
    let s₁ = IsHeld-set_vlock t₁ t' way key (suc top) (omega arith) h₁ s in
    let same : (t.root_vlock == t.root_vlock) ≡ true = (==_iff t.root_vlock t.root_vlock).1 refl in
    let size : suc top + 0 ≡ suc top = omega arith in
    (
      t',
      rw (free, succeed 0 (omega arith), write_lock, lock_from_point, read_root)
          (rw same (
            rw root (
              rw (succeed (suc top) (omega arith), write_inner-unlocked id t₁ unlocked)
                (rw locks (ap (λ n. locked (bundle_of way n) t') size))))),
      s₁.same_root_vlock,
      s₁,
      drop_bundle-IsReleased t t' way key (suc top) h s₁.same_root_vlock s₁,
    )
