-- ===== src/BTree/Rebuild/Entries.antt =====
-- A node above leaves, as the list of its pivots with their children, and the loop that fills it.
use quickstep.Base.{
  ℕ, ◌+◌, ◌-◌, ◌*◌, ◌%◌, ◌^◌, ◌≤◌, ◌<◌, ◌≡◌, inl, inr, refl, ap, sym, subst, ◌∙◌, arith,
}
use quickstep.Base.{
  List, [], ◌∷◌, ◌++◌, append_assoc, append-nil, some, true, false, length, ltb, leb, All,
  Bool-cases,
}
use quickstep.BTree.{BpNode, get_key, get_leaf_child, space_left}
use quickstep.BTree.Append.{BpError, bp_done, bp_failed, append_entry}
use quickstep.BTree.Append.{append_leaf_entry}
use BpError.{node_full}
use quickstep.BTree.Append.Room.{IsBpNode, IsAppended, append_leaf_entry-IsAppended}
use quickstep.BTree.Rebuild.{ChildPointer, leaf_child, append_all, append_entry_for_level}
use quickstep.BTree.Rebuild.{node_entries, get_child_for_level, reset_parent}

abbrev pub Pivots : Type 0
Pivots = List (List ℕ × ℕ)

abbrev pub as_entries : Pivots → List (List ℕ × ChildPointer)
as_entries [] = []
as_entries ((key, child) ∷ es) = (key, leaf_child child) ∷ as_entries es

-- The bytes of the entries and of their words.
abbrev pub cost : Pivots → ℕ
cost [] = 0
cost ((key, child) ∷ es) = length key + 10 + cost es

-- From the pivot `i` on, the node has these and no others.
abbrev pub HoldsFrom : BpNode → ℕ → Pivots → Type 0
HoldsFrom n i [] = n.count ≡ i
HoldsFrom n i ((key, child) ∷ es) =
    (get_key n i ≡ some key) × (get_leaf_child n i ≡ child) × HoldsFrom n (i + 1) es

-- A well-formed node with these pivots, whose bytes are all that is taken.
pub record IsHolding (n : BpNode) (es : Pivots) : Type 0 where
  pub node : IsBpNode n
  pub holds : HoldsFrom n 0 es
  pub free : n.alloc_idx + 1 + cost es ≡ 4072 + 4 * n.count

-- Keys that are not too long, and children of 48 bits.
abbrev pub IsPivot : List ℕ × ℕ → Type 0
IsPivot e = (length e.0 ≤ 64) × (e.1 < 2 ^ 48)

HoldsFrom-count : (n : BpNode) (i : ℕ) (es : Pivots) → HoldsFrom n i es → i + length es ≡ n.count
HoldsFrom-count n i [] h = omega (arith, h)
HoldsFrom-count n i ((key, child) ∷ es) h = omega (arith, HoldsFrom-count n (i + 1) es h.2)

pub IsHolding-count : (n : BpNode) (es : Pivots) → IsHolding n es → length es ≡ n.count
IsHolding-count n es h = omega (arith, HoldsFrom-count n 0 es h.holds)

HoldsFrom-append :
    (n n' : BpNode) (i : ℕ) (es : Pivots) (key : List ℕ) (child : ℕ)
    → child < 2 ^ 48
    → IsAppended n key child n'
    → HoldsFrom n i es
    → HoldsFrom n' i (es ++ ((key, child) ∷ []))
HoldsFrom-append n n' i [] key child small a h = (
  ap (get_key n') (sym h) ∙ a.new_key,
  ap (get_leaf_child n') (sym h) ∙ a.new_child ∙ omega arith,
  omega (arith, a.one_more, h),
)
HoldsFrom-append n n' i ((k, c) ∷ es) key child small a (here, there, rest) =
    let inside : i < n.count = omega (arith, HoldsFrom-count n (i + 1) es rest) in
    (
      a.old_keys i inside ∙ here,
      a.old_children i inside ∙ there,
      HoldsFrom-append n n' (i + 1) es key child small a rest,
    )

cost-append :
    (es : Pivots) (key : List ℕ) (child : ℕ)
    → cost (es ++ ((key, child) ∷ [])) ≡ cost es + (length key + 10)
cost-append [] key child = omega arith
cost-append ((k, c) ∷ es) key child = omega (arith, cost-append es key child)

appended-IsHolding :
    (n n' : BpNode) (es : Pivots) (key : List ℕ) (child : ℕ)
    → child < 2 ^ 48
    → IsHolding n es
    → IsAppended n key child n'
    → IsHolding n' (es ++ ((key, child) ∷ []))
appended-IsHolding n n' es key child small h a = record {
  node = a.node;
  holds = HoldsFrom-append n n' 0 es key child small a h.holds;
  free = omega (arith, cost-append es key child, h.free, a.taken, a.one_more);
}

-- Without room the node is left as it was.
append_leaf_entry_full :
    (n : BpNode) (key : List ℕ) (child : ℕ)
    → IsBpNode n
    → length key ≤ 64
    → n.alloc_idx + 1 < 4 * n.count + 4 + (length key + 6)
    → append_leaf_entry key child n ≡ bp_failed node_full n
unfolding append_leaf_entry append_entry space_left
append_leaf_entry_full n key child h short full =
    let left : (n.alloc_idx + 2 ^ 64 - 4 * n.count + 1) % 2 ^ 64 ≡ n.alloc_idx + 1 - 4 * n.count =
      omega (arith, h.inside, h.words) in
    let fits : ltb 64 (length key) ≡ false = ground arith in
    let none_left : ltb (n.alloc_idx + 1 - 4 * n.count) (length key + 6 + 4) ≡ true =
      ground arith in
    rw (fits, left, none_left, append_leaf_entry, append_entry, space_left) refl

pub append_leaf_entry-IsHolding :
    (n : BpNode) (es : Pivots) (key : List ℕ) (child : ℕ)
    → IsHolding n es
    → IsPivot (key, child)
    → cost es + (length key + 10) ≤ 4072
    → (n' : BpNode) × (append_leaf_entry key child n ≡ bp_done n')
      × IsHolding n' (es ++ ((key, child) ∷ []))
      × (n'.lowest ≡ n.lowest)
append_leaf_entry-IsHolding n es key child h (short, small) fits =
    let (n', done, a) =
      append_leaf_entry-IsAppended n key child h.node short (omega (arith, h.free)) in
    (n', done, appended-IsHolding n n' es key child small h a, a.same_lowest)

regroup : (pre es : Pivots) (e : List ℕ × ℕ) → (pre ++ (e ∷ [])) ++ es ≡ pre ++ (e ∷ es)
regroup pre es e = append_assoc pre (e ∷ []) es

-- Where all entries fit, the node holds them behind those that it had.
pub append_all-IsHolding :
    (es : Pivots) (n : BpNode) (pre : Pivots)
    → IsHolding n pre
    → All IsPivot es
    → cost pre + cost es ≤ 4072
    → (n' : BpNode) × (append_all 1 (as_entries es) n ≡ bp_done n')
      × IsHolding n' (pre ++ es)
      × (n'.lowest ≡ n.lowest)
unfolding append_all append_entry_for_level
append_all-IsHolding [] n pre h ok fits =
    (n, refl, subst (IsHolding n) (sym (append-nil pre)) h, refl)
append_all-IsHolding ((key, child) ∷ es) n pre h (one, ok) fits =
    let (n₁, appends, h₁, low₁) =
      append_leaf_entry-IsHolding n pre key child h one (omega (arith, fits)) in
    let (n', rest, h', low') =
      append_all-IsHolding es n₁ (pre ++ ((key, child) ∷ [])) h₁ ok
        (omega (arith, fits, cost-append pre key child)) in
    (
      n',
      rw (appends, append_all, append_entry_for_level) rest,
      subst (IsHolding n') (regroup pre es (key, child)) h',
      low' ∙ low₁,
    )

-- What is left of a rebuild that runs out of room: the first entries, one missing at least.
pub record IsCutShort (pre es : Pivots) (n n' : BpNode) : Type 0 where
  pub kept : Pivots
  pub first : List ℕ × ℕ
  pub lost : Pivots
  pub parts : es ≡ kept ++ (first ∷ lost)
  pub holding : IsHolding n' (pre ++ kept)
  pub same_lowest : n'.lowest ≡ n.lowest
  pub full : 4072 < cost (pre ++ kept) + (length first.0 + 10)

pub append_all-IsCutShort :
    (es : Pivots) (n : BpNode) (pre : Pivots)
    → IsHolding n pre
    → All IsPivot es
    → cost pre ≤ 4072
    → 4072 < cost pre + cost es
    → (n' : BpNode) × (append_all 1 (as_entries es) n ≡ bp_failed node_full n')
      × IsCutShort pre es n n'
unfolding append_all append_entry_for_level
append_all-IsCutShort [] n pre h ok some_room over = absurd (omega (arith, some_room, over))
append_all-IsCutShort ((key, child) ∷ es) n pre h (one, ok) some_room over =
    elim (Bool-cases (leb (cost pre + (length key + 10)) 4072)) [
      | inl fits ↦
          let room : cost pre + (length key + 10) ≤ 4072 = ground (arith, fits) in
          let (n₁, appends, h₁, low₁) = append_leaf_entry-IsHolding n pre key child h one room in
          let (n', rest, cut) =
            append_all-IsCutShort es n₁ (pre ++ ((key, child) ∷ [])) h₁ ok
              (omega (arith, room, cost-append pre key child))
              (omega (arith, over, cost-append pre key child)) in
          (
            n',
            rw (appends, append_all, append_entry_for_level) rest,
            record {
              kept = (key, child) ∷ cut.kept;
              first = cut.first;
              lost = cut.lost;
              parts = ap (λ l. (key, child) ∷ l) cut.parts;
              holding = subst (IsHolding n') (regroup pre cut.kept (key, child)) cut.holding;
              same_lowest = cut.same_lowest ∙ low₁;
              full =
                  subst (λ l. 4072 < cost l + (length cut.first.0 + 10))
                    (regroup pre cut.kept (key, child)) cut.full;
            },
          )
      | inr full ↦
          let too_much : 4072 < cost pre + (length key + 10) = ground (arith, full) in
          (
            n,
            rw
                (
                  append_leaf_entry_full n key child h.node one.0 (omega (arith, h.free, too_much)),
                  append_all,
                  append_entry_for_level,
                )
                refl,
            record {
              kept = [];
              first = (key, child);
              lost = es;
              parts = refl;
              holding = subst (IsHolding n) (sym (append-nil pre)) h;
              same_lowest = refl;
              full = omega (arith, too_much, ap cost (append-nil pre));
            },
          )
    ]

pub reset_parent-IsHolding : (lowest : ℕ) (n : BpNode) → IsHolding (reset_parent lowest n) []
unfolding reset_parent
reset_parent-IsHolding lowest n = record {
  node = record {
    inside = omega arith;
    words = omega arith;
    behind = λ i high. absurd (omega (arith, high));
    ends = λ i high. absurd (omega (arith, high));
  };
  holds = refl;
  free = omega arith;
}

-- What the code reads back of a node.
pub node_entries-HoldsFrom :
    (es : Pivots) (n : BpNode) (i : ℕ)
    → HoldsFrom n i es
    → node_entries (length es) i 1 n ≡ some (as_entries es)
unfolding node_entries get_child_for_level
node_entries-HoldsFrom [] n i h = refl
node_entries-HoldsFrom ((key, child) ∷ es) n i (here, there, rest) =
    rw (here, node_entries)
      (rw (node_entries-HoldsFrom es n (i + 1) rest)
        (ap (λ c. some ((key, leaf_child c) ∷ as_entries es)) there))
