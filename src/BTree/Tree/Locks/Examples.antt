-- ===== src/BTree/Tree/Locks/Examples.antt =====
-- Write locks on a concrete tree of three levels.
use quickstep.Base.{
  ℕ, suc, ◌+◌, ◌^◌, ◌<◌, ◌≤◌, ◌≡◌, ◌≢◌, refl, subst, sym, arith, [], ◌∷◌, some, false,
}
use quickstep.Base.{◌==◌, if◌then◌else◌}
use quickstep.BTree.{
  BpNode, blank, get_key, get_inner_child, get_meta, child_at_ptr, is_locked_or_obsolete,
}
use quickstep.Utils.{extract_u32}
use quickstep.Base.Order.{compare_bytes}
use quickstep.Base.Memory.{read_bytes}
use quickstep.Base.Bytes.{from_le, from_be}
use quickstep.BTree.Search.{search_for, binary_search, pivot_loop, pivot_order, search_for_inner}
use quickstep.BTree.Tree.{BpTree, get_root}
use quickstep.BTree.Tree.Traverse.{at_root}
use quickstep.BTree.Tree.Locks.{split, locked, write_lock, drop_bundle}
use quickstep.BTree.Tree.Locks.Path.{IsWay, IsHeld}
use quickstep.BTree.Tree.Locks.Held.{bundle_of, IsReleased, write_lock-IsHeld}

-- One pivot, the byte 5, with the node 3 behind it and the node 0 below.
abbrev two_children : BpNode
two_children = record {
  count = 1;
  alloc_idx = 3999;
  lowest = 0;
  rest = λ i.
      if i == 0
      then 160
      else if i == 1
      then 15
      else if i == 2
      then 1
      else if i == 4000
      then 5
      else if i == 4004
      then 3
      else 0;
}

-- The node 2 is the root, above the nodes 0 and 3.
abbrev two_levels : BpTree
two_levels = record {
  slab = λ i. if i == 2 then two_children else blank;
  vlocks = λ i. 4;
  cap = 8;
  root = 2 ^ 49 + 2;
  root_vlock = 8;
  next_free = 4;
  free_list = 4294967295;
}

abbrev way_of : ℕ → ℕ
way_of l = if l == 1 then 3 else 2

finds_three : search_for_inner two_children (7 ∷ []) ≡ some 3
unfolding search_for_inner search_for binary_search pivot_loop pivot_order get_key get_inner_child
    get_meta child_at_ptr extract_u32 read_bytes from_le from_be compare_bytes
finds_three = refl

distinct_ways : (l m : ℕ) → 0 < l → l < m → m ≤ 2 → way_of l ≢ way_of m
distinct_ways l m some_level before low = ground (arith, some_level, before, low)

unlocked-IsWay : IsWay two_levels way_of (7 ∷ []) 2
unfolding is_locked_or_obsolete
unlocked-IsWay = record {
  finds = λ l low.
      let first : l ≡ 0 = omega (arith, low) in
      subst
        (λ i.
          search_for_inner (two_levels.slab (way_of (suc (suc i)))) (7 ∷ [])
          ≡ some (way_of (suc i)))
        (sym first) finds_three;
  unlocked = λ l some_level low. refl;
  distinct = distinct_ways;
}

write_lock-IsHeld_example :
    (t' : BpTree) × (write_lock (λ i l. false) at_root split (7 ∷ []) two_levels
      ≡ locked (bundle_of way_of 2) t')
    × (t'.root_vlock ≡ 10)
    × IsHeld (record two_levels { root_vlock = 10 }) t' way_of 3
    × IsReleased two_levels (drop_bundle (bundle_of way_of 2) t') way_of 2
unfolding get_root is_locked_or_obsolete
write_lock-IsHeld_example =
    write_lock-IsHeld (λ i l. false) two_levels way_of (7 ∷ []) 1 split (λ l low. refl) refl refl
      refl unlocked-IsWay
