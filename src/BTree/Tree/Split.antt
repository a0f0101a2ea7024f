-- ===== src/BTree/Tree/Split.antt =====
-- The split of a node above leaves that has no room for another pivot.
use quickstep.Base.{
  ℕ, zero, suc, ◌+◌, ◌*◌, ◌/◌, ◌%◌, ◌^◌, ◌≤◌, ◌<◌, ◌≡◌, ◌≢◌, inl, inr, refl, ap, subst, ◌∙◌, arith,
}
use quickstep.Base.{
  List, [], ◌∷◌, ◌++◌, some, true, false, length, take, drop, get_elem?, leb, ◌==◌, ==_iff, All,
  if◌then◌else◌,
}
use quickstep.Base.{length-append}
use quickstep.BTree.{BpNode, blank}
use quickstep.BTree.Append.{bp_done}
use quickstep.BTree.Rebuild.{leaf_child, rebuild, reset_parent}
use quickstep.BTree.Rebuild.{lowest_child_for_level, reset_for_level}
use quickstep.BTree.Rebuild.Entries.{Pivots, as_entries, cost, IsHolding, IsPivot}
use quickstep.BTree.Rebuild.Entries.{append_all-IsHolding, reset_parent-IsHolding}
use quickstep.BTree.Rebuild.Inserted.{IsBehind, with_entry-IsBehind, entries_read}
use quickstep.BTree.Tree.{BpTree, tree_done, set_slab, alloc_inner_node, in_slab, split_entries}
use quickstep.BTree.Tree.{split_inner_node}

cost_between :
    (es : Pivots) → All IsPivot es → (10 * length es ≤ cost es) × (cost es ≤ 74 * length es)
cost_between [] h = omega arith
cost_between ((key, child) ∷ es) ((short, small), h) = omega (arith, short, cost_between es h)

cost_joined : (xs ys : Pivots) → cost (xs ++ ys) ≡ cost xs + cost ys
cost_joined [] ys = omega arith
cost_joined ((key, child) ∷ xs) ys = omega (arith, cost_joined xs ys)

pub All_parts : (xs ys : Pivots) → All IsPivot (xs ++ ys) → All IsPivot xs × All IsPivot ys
All_parts [] ys h = (tt, h)
All_parts (x ∷ xs) ys (h, hs) = let (l, r) = All_parts xs ys hs in ((h, l), r)

-- A list cut in front of one of its entries.
record IsCut (es : Pivots) (i : ℕ) : Type 0 where
  pub lefts : Pivots
  pub pivot : List ℕ
  pub child : ℕ
  pub rights : Pivots
  pub parts : es ≡ lefts ++ ((pivot, child) ∷ rights)
  pub size : length lefts ≡ i
  pub middle : get_elem? (as_entries es) i ≡ some (pivot, leaf_child child)
  pub front : take i (as_entries es) ≡ as_entries lefts
  pub back : drop (i + 1) (as_entries es) ≡ as_entries rights

IsCut-at : (es : Pivots) (i : ℕ) → i < length es → IsCut es i
IsCut-at [] i h = absurd (omega (arith, h))
IsCut-at ((key, child) ∷ es) zero h = record {
  lefts = [];
  pivot = key;
  child = child;
  rights = es;
  parts = refl;
  size = refl;
  middle = refl;
  front = refl;
  back = refl;
}
IsCut-at ((key, child) ∷ es) (suc i) h =
    let c = IsCut-at es i (omega (arith, h)) in
    record {
      lefts = (key, child) ∷ c.lefts;
      pivot = c.pivot;
      child = c.child;
      rights = c.rights;
      parts = ap (λ l. (key, child) ∷ l) c.parts;
      size = omega (arith, c.size);
      middle = c.middle;
      front = ap (λ l. (key, leaf_child child) ∷ l) c.front;
      back =
          let next : suc i + 1 ≡ suc (i + 1) = omega arith in
          ap (λ k. drop k (as_entries ((key, child) ∷ es))) next ∙ c.back;
    }

rebuild-IsHolding :
    (lowest : ℕ) (es : Pivots) (n : BpNode)
    → All IsPivot es
    → cost es ≤ 4072
    → (n' : BpNode) × (rebuild 1 (leaf_child lowest) (as_entries es) n ≡ bp_done n')
      × IsHolding n' es
      × (n'.lowest ≡ lowest)
unfolding rebuild reset_for_level reset_parent
rebuild-IsHolding lowest es n ok fits =
    append_all-IsHolding es (reset_parent lowest n) [] (reset_parent-IsHolding lowest n) ok
      (omega (arith, fits))

length-as_entries : (es : Pivots) → length (as_entries es) ≡ length es
length-as_entries [] = refl
length-as_entries ((key, child) ∷ es) = omega (arith, length-as_entries es)

-- The middle entry is taken out: the node keeps those in front of it, and the new node has those
-- behind it above the child of the middle one.
pub record IsSplit (t : BpTree) (id : ℕ) (es : Pivots) (t' : BpTree) : Type 0 where
  pub lefts : Pivots
  pub pivot : List ℕ
  pub child : ℕ
  pub rights : Pivots
  pub parts : es ≡ lefts ++ ((pivot, child) ∷ rights)
  pub halves : length lefts ≡ length es / 2
  pub left_node : IsHolding (t'.slab id) lefts
  pub left_lowest : (t'.slab id).lowest ≡ (t.slab id).lowest
  pub right_node : IsHolding (t'.slab t.next_free) rights
  pub right_lowest : (t'.slab t.next_free).lowest ≡ child
  pub others : (j : ℕ) → j ≢ id → j ≢ t.next_free → t'.slab j ≡ t.slab j
  pub same_root : t'.root ≡ t.root
  pub next : t'.next_free ≡ (t.next_free + 1) % 2 ^ 32
  pub same_cap : t'.cap ≡ t.cap

module _ (t : BpTree) (id : ℕ) (es : Pivots) (ok : All IsPivot es) (some_room : t.next_free < t.cap)
    (other : id ≢ t.next_free) (many : 3998 < cost es) (few : cost es ≤ 4146) where
  -- Each half has so many entries that the other one fits.
  halves_fit :
      (c : IsCut es (length (as_entries es) / 2)) → (cost c.lefts ≤ 4072) × (cost c.rights ≤ 4072)
  halves_fit c =
      let all = cost_between es ok in
      let (left_ok, rest_ok) =
        All_parts c.lefts ((c.pivot, c.child) ∷ c.rights) (subst (All IsPivot) c.parts ok) in
      let lefts = cost_between c.lefts left_ok in
      let rights = cost_between c.rights rest_ok.1 in
      let total = ap cost c.parts ∙ cost_joined c.lefts ((c.pivot, c.child) ∷ c.rights) in
      let count = ap length c.parts ∙ length-append c.lefts ((c.pivot, c.child) ∷ c.rights) in
      omega (arith, many, few, all, lefts, rights, total, count, c.size, length-as_entries es)

  after_split : BpNode → BpNode → BpTree
  after_split left right = set_slab t.next_free right (
      set_slab id left
        (record (set_slab t.next_free blank (record t { next_free = (t.next_free + 1) % 2 ^ 32 })) {
          vlocks = λ i. if i == t.next_free then 0 else t.vlocks i;
        }))

  split_entries-IsSplit :
      (t' : BpTree) × (s : IsSplit t id es t') × (split_entries id 1
          (leaf_child (t.slab id).lowest)
          (as_entries es)
          t
        ≡ tree_done (record { pivot_key = s.pivot; right_node = t.next_free }) t')
  unfolding split_entries alloc_inner_node in_slab set_slab after_split
  split_entries-IsSplit =
      let middle : length (as_entries es) / 2 < length es =
        omega (arith, length-as_entries es, cost_between es ok, many) in
      let c = IsCut-at es (length (as_entries es) / 2) middle in
      let (left_ok, rest_ok) =
        All_parts c.lefts ((c.pivot, c.child) ∷ c.rights) (subst (All IsPivot) c.parts ok) in
      let fit = halves_fit c in
      let (left, left_done, left_node, left_lowest) =
        rebuild-IsHolding (t.slab id).lowest c.lefts (t.slab id) left_ok fit.0 in
      let (right, right_done, right_node, right_lowest) =
        rebuild-IsHolding c.child c.rights blank rest_ok.1 fit.1 in
      let room : leb t.cap t.next_free ≡ false = ground (arith, some_room) in
      let apart : (id == t.next_free) ≡ false = ground (arith, other) in
      let apart' : (t.next_free == id) ≡ false = ground (arith, other) in
      let same : (t.next_free == t.next_free) ≡ true = (==_iff t.next_free t.next_free).1 refl in
      let same' : (id == id) ≡ true = (==_iff id id).1 refl in
      (
        after_split left right,
        record {
          lefts = c.lefts;
          pivot = c.pivot;
          child = c.child;
          rights = c.rights;
          parts = c.parts;
          halves = c.size ∙ ap (λ k. k / 2) (length-as_entries es);
          left_node = rw (apart, same') left_node;
          left_lowest = rw (apart, same') left_lowest;
          right_node = rw same right_node;
          right_lowest = rw same right_lowest;
          others = λ j h k. ground (arith, h, k);
          same_root = refl;
          next = refl;
          same_cap = refl;
        },
        rw (c.middle, split_entries)
            (rw (room, alloc_inner_node)
              (rw apart
                (rw c.front (rw left_done (rw (apart', same) (rw c.back (rw right_done refl))))))),
      )

pub cost-IsBehind :
    (lowest left : ℕ) (pivot : List ℕ) (right : ℕ) (es es' : Pivots)
    → IsBehind lowest left (pivot, right) es es'
    → cost es' ≡ cost es + (length pivot + 10)
cost-IsBehind lowest left pivot right es es' (inl (same, here)) = omega (arith, ap cost here)
cost-IsBehind lowest left pivot right es es'
      (inr (other, (front, key, back, parts, absent, here))) =
    omega (
      arith,
      ap cost here,
      ap cost parts,
      cost_joined front ((key, left) ∷ (pivot, right) ∷ back),
      cost_joined front ((key, left) ∷ back),
    )

cost-IsHolding : (n : BpNode) (es : Pivots) → IsHolding n es → cost es ≤ 4072
cost-IsHolding n es h = omega (arith, h.free, h.node.words)

-- A node above leaves holds pivots of at most 64 bytes with children below 2 ^ 48, which take more
-- than 3,998 bytes with a new pivot right behind a given child; the tree has room for another node.
-- The split succeeds, and takes out the middle one of all of them: the node keeps those in front of
-- it and its lowest child, the new node has those behind it above the middle one's child, and no
-- other node changes.
pub split_inner_node-IsSplit :
    (t : BpTree) (id left : ℕ) (pivot : List ℕ) (right : ℕ) (es es' : Pivots)
    → IsHolding (t.slab id) es
    → IsBehind (t.slab id).lowest left (pivot, right) es es'
    → All IsPivot es'
    → length pivot ≤ 64
    → t.next_free < t.cap
    → id ≢ t.next_free
    → 3998 < cost es'
    → (t' : BpTree) × (s : IsSplit t id es' t') × (split_inner_node id 1
          (leaf_child left)
          pivot
          (leaf_child right)
          t
        ≡ tree_done (record { pivot_key = s.pivot; right_node = t.next_free }) t')
unfolding split_inner_node lowest_child_for_level
split_inner_node-IsSplit t id left pivot right es es' h place ok short some_room other many =
    let few : cost es' ≤ 4146 = omega (
      arith,
      cost-IsHolding (t.slab id) es h,
      cost-IsBehind _ left pivot right es es' place,
      short,
    ) in
    let (t', s, splits) = split_entries-IsSplit t id es' ok some_room other many few in
    (
      t',
      s,
      rw (entries_read (t.slab id) es h left pivot right, split_inner_node)
          (rw (with_entry-IsBehind (t.slab id).lowest left pivot right es es' place) splits),
    )
