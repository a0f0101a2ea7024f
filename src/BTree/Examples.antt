-- ===== src/BTree/Examples.antt =====
-- Inner nodes on concrete pivots.
use quickstep.Base.{ℕ, zero, suc, ◌<◌, ◌≡◌, arith, [], ◌∷◌, some}
use quickstep.BTree.{BpNode, blank, get_key}
use quickstep.BTree.Search.{search_for_leaf}
use quickstep.BTree.Search.Child.{IsPivots, IsChild, search_for_leaf-IsChild}
use quickstep.BTree.Append.{write_entry}
use quickstep.BTree.Append.Room.{IsBpNode, appended}
use quickstep.BTree.Append.Room.{key_new}

blank-IsBpNode : IsBpNode blank
unfolding blank
blank-IsBpNode = record {
  inside = omega arith;
  words = omega arith;
  behind = λ i high. absurd (omega arith);
  ends = λ i high. absurd (omega arith);
}

one : BpNode
one = appended blank (5 ∷ []) 9

one_key : (i : ℕ) → i < 1 → get_key one i ≡ some (5 ∷ [])
unfolding one blank
one_key zero high = key_new blank (5 ∷ []) 9 blank-IsBpNode (omega arith) (omega arith)
one_key (suc i) high = absurd (omega arith)

one-IsPivots : IsPivots one (λ i. 5 ∷ [])
unfolding one blank write_entry
one-IsPivots = record {
  some_pivot = omega arith;
  keys = one_key;
  ascending = λ i j order high. absurd (omega arith);
}

search_for_leaf-IsChild_example :
    (child : ℕ) × (search_for_leaf one (7 ∷ []) ≡ some child)
    × IsChild one (λ i. 5 ∷ []) (7 ∷ []) child
search_for_leaf-IsChild_example = search_for_leaf-IsChild one (λ i. 5 ∷ []) (7 ∷ []) one-IsPivots
