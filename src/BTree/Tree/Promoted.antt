-- ===== src/BTree/Tree/Promoted.antt =====
-- The first split of the tree: the root leaf gets a parent, and a search goes through it.
use quickstep.Base.{
  ℕ, ◌+◌, ◌%◌, ◌^◌, ◌≤◌, ◌<◌, ◌≡◌, ◌≢◌, inl, inr, refl, ap, sym, subst, ◌∙◌, arith,
}
use quickstep.Base.{List, [], ◌∷◌, some, true, false, length, ltb, leb, ◌==◌, ==_iff, if◌then◌else◌}
use Prim.Native.Nat.{Ordering}
use Ordering.{lt, eq, gt}
use quickstep.Base.Bits.{or_low}
use quickstep.Base.Order.{compare_bytes, compare_bytes_flip, compare_bytes_flip_lt}
use quickstep.BTree.{BpNode, blank, get_key, get_leaf_child, is_locked_or_obsolete}
use quickstep.BTree.Search.{search_for_leaf}
use quickstep.BTree.Search.Child.{IsPivots, search_for_leaf-IsChild}
use quickstep.BTree.Append.{bp_done}
use quickstep.BTree.Append.Room.{append_leaf_entry-appended}
use quickstep.BTree.Rebuild.{reset_parent, init_leaf_parent}
use quickstep.BTree.Rebuild.Entries.{
  IsHolding, IsPivot, append_leaf_entry-IsHolding, reset_parent-IsHolding,
}
use quickstep.BTree.Tree.{
  BpTree, tree_done, set_slab, alloc_inner_node, in_slab, set_inner, get_root,
}
use quickstep.BTree.Tree.{root_inner, promote_leaf_root}
use quickstep.BTree.Tree.Traverse.{
  Traversal, reached, restart, traverse_panic, read_version, read_root,
}
use quickstep.BTree.Tree.Traverse.{read_inner, reach_leaf, descend, try_read_traverse_leaf}
use quickstep.BTree.Tree.Traverse.{traverse_loop, read_traverse_leaf}

-- A node with one pivot.
init_leaf_parent-IsHolding :
    (left right : ℕ) (pivot : List ℕ) (n : BpNode)
    → IsPivot (pivot, right)
    → (n' : BpNode) × (init_leaf_parent left right pivot n ≡ bp_done n')
      × IsHolding n' ((pivot, right) ∷ [])
      × (n'.lowest ≡ left)
unfolding init_leaf_parent reset_parent
init_leaf_parent-IsHolding left right pivot n (short, small) =
    let base = reset_parent left n in
    let h = reset_parent-IsHolding left n in
    let (n', appends, holding, low) =
      append_leaf_entry-IsHolding base [] pivot right h (short, small) (omega (arith, short)) in
    let fits : ltb 64 (length pivot) ≡ false = ground (arith, short) in
    let room : ltb 4072 (length pivot + 6 + 4) ≡ false = ground (arith, short) in
    let same =
      sym appends
      ∙ append_leaf_entry-appended base pivot right h.node short (omega (arith, short)) in
    (n', rw (fits, room, init_leaf_parent) (sym same), holding, low)

holding_one :
    (n : BpNode) (pivot : List ℕ) (right : ℕ)
    → IsHolding n ((pivot, right) ∷ [])
    → IsPivots n (λ i. pivot)
holding_one n pivot right h = record {
  some_pivot = omega (arith, h.holds.2);
  keys = λ i inside.
      let first : i ≡ 0 = omega (arith, inside, h.holds.2) in ap (get_key n) first ∙ h.holds.0;
  ascending = λ i j before inside. absurd (omega (arith, before, inside, h.holds.2));
}

not_below : (a b : ℕ) (x : Ordering) → x ≢ lt → b ≡ elim x [ lt ↦ a | _ ↦ b ]
not_below a b lt other = absurd (other refl)
not_below a b eq other = refl
not_below a b gt other = refl

-- The search in a node with one pivot.
search_one :
    (n : BpNode) (pivot : List ℕ) (right : ℕ) (key : List ℕ)
    → IsHolding n ((pivot, right) ∷ [])
    → search_for_leaf n key ≡ some (elim (compare_bytes key pivot) [ lt ↦ n.lowest | _ ↦ right ])
search_one n pivot right key h =
    let (child, ends, at) =
      search_for_leaf-IsChild n (λ i. pivot) key (holding_one n pivot right h) in
    elim at [
      | inl (low, above) ↦
          let less : compare_bytes key pivot ≡ lt =
            compare_bytes_flip pivot key (above 0 (omega (arith, h.holds.2))) in
          rw less (ends ∙ ap some low)
      | inr (idx, inside, here, below, above) ↦
          let first : idx ≡ 0 = omega (arith, inside, h.holds.2) in
          let other : compare_bytes key pivot ≢ lt =
            λ less. below 0 (omega arith) (compare_bytes_flip_lt key pivot less) in
          ends
          ∙ ap some (
              here
              ∙ ap (get_leaf_child n) first
              ∙ h.holds.1
              ∙ not_below n.lowest right (compare_bytes key pivot) other)
    ]

-- A tree that no thread changes.
abbrev pub quiet : BpTree → ℕ → ℕ → BpTree
quiet t attempt i = t

-- The traversal ends at the page.
abbrev pub IsReached : Traversal → ℕ → Type 0
IsReached (reached res) page = res.page ≡ page
IsReached restart page = ⊥
IsReached traverse_panic page = ⊥

get_root-set_inner :
    (t : BpTree) (id : ℕ) → id < 2 ^ 32 → get_root (set_inner id 1 t) ≡ root_inner 1 id
unfolding get_root set_inner
get_root-set_inner t id small =
    let packed = or_low 48 1 id (omega (arith, small)) in ground (arith, packed, small)

-- The way down through one node, that no one locks.
reach_one :
    (t : BpTree) (id : ℕ) (pivot : List ℕ) (right : ℕ) (key : List ℕ)
    → get_root t ≡ root_inner 1 id
    → is_locked_or_obsolete t.root_vlock ≡ false
    → is_locked_or_obsolete (t.vlocks id) ≡ false
    → IsHolding (t.slab id) ((pivot, right) ∷ [])
    → IsReached
        (try_read_traverse_leaf key (quiet t 0))
        (elim (compare_bytes key pivot) [ lt ↦ (t.slab id).lowest | _ ↦ right ])
unfolding try_read_traverse_leaf read_root read_inner read_version descend reach_leaf
reach_one t id pivot right key root free unlocked h =
    let same : (t.root_vlock == t.root_vlock) ≡ true = (==_iff t.root_vlock t.root_vlock).1 refl in
    let same' : (t.vlocks id == t.vlocks id) ≡ true = (==_iff (t.vlocks id) (t.vlocks id)).1 refl in
    rw (free, try_read_traverse_leaf, read_root)
      (rw root (
        rw (unlocked, read_inner)
          (rw same (rw (search_one (t.slab id) pivot right key h, reach_leaf) (rw same' refl)))))

first_try :
    (r rest : Traversal) (page : ℕ)
    → IsReached r page
    → IsReached
        (elim r [ reached res ↦ reached res | restart ↦ rest | traverse_panic ↦ traverse_panic ])
        page
first_try (reached res) rest page h = h
first_try restart rest page h = absurd h
first_try traverse_panic rest page h = absurd h

-- In a tree with room for a node, and for at most 2 ^ 32, the root leaf is given a parent with the
-- new leaf at its right: that succeeds, for a pivot of at most 64 bytes and a right page below
-- 2 ^ 48. Once the version word
-- of the root is unlocked, while no other thread runs, the way down ends at the left page for each
-- key below the pivot, and at the right page for all other keys.
pub promote_leaf_root-IsReached :
    (t : BpTree) (left right : ℕ) (pivot : List ℕ)
    → length pivot ≤ 64
    → right < 2 ^ 48
    → t.next_free < t.cap
    → t.cap ≤ 2 ^ 32
    → (t' : BpTree) × (promote_leaf_root left right pivot t ≡ tree_done tt t')
      × ((v : ℕ) (key : List ℕ)
          → is_locked_or_obsolete v ≡ false
          → IsReached
              (read_traverse_leaf key (quiet (record t' { root_vlock = v })))
              (elim (compare_bytes key pivot) [ lt ↦ left | _ ↦ right ]))
unfolding promote_leaf_root alloc_inner_node in_slab set_slab set_inner read_traverse_leaf
    traverse_loop is_locked_or_obsolete
promote_leaf_root-IsReached t left right pivot short small some_room bound =
    let id = t.next_free in
    let (n, inits, holding, low) =
      init_leaf_parent-IsHolding left right pivot blank (short, small) in
    let room : leb t.cap id ≡ false = ground (arith, some_room) in
    let same : (id == id) ≡ true = (==_iff id id).1 refl in
    let allocated : BpTree =
      record (set_slab id blank (record t { next_free = (id + 1) % 2 ^ 32 })) {
        vlocks = λ i. if i == id then 0 else t.vlocks i;
      } in
    let t' = set_inner id 1 (set_slab id n allocated) in
    (
      t',
      rw (room, promote_leaf_root, alloc_inner_node) (rw same (rw inits refl)),
      λ v key free. first_try _ _ _ (
          subst
            (λ l.
              IsReached (try_read_traverse_leaf key (quiet (record t' { root_vlock = v }) 0))
                (elim (compare_bytes key pivot) [ lt ↦ l | _ ↦ right ]))
            (rw same low)
            (reach_one (record t' { root_vlock = v }) id pivot right key
              (get_root-set_inner (record (set_slab id n allocated) { root_vlock = v }) id
                (omega (arith, some_room, bound)))
              free (rw same refl) (rw same holding))),
    )
