-- ===== src/PageOp/Examples.antt =====
-- Splits, merges and accesses on concrete leaves.
use quickstep.Base.{ℕ, ◌≡◌, ◌≢◌, refl, ap, arith, List, [], ◌∷◌, none, some, All}
use quickstep.Base.Bytes.{IsByte}
use quickstep.Types.NodeSize.{n128, size_in_bytes, size_in_words, index}
use quickstep.MapTable.Entry.{mini_page}
use quickstep.Node.{Node, count, fence_bounds, get_node_prefix, common_prefix}
use quickstep.Node.Search.Lookup.{value_of}
use quickstep.Node.Layout.{IsNode}
use quickstep.Node.Put.Insert.{find_min_offset-le}
use quickstep.Node.Put.Replay.{with_prefix, needed}
use quickstep.Node.Fences.Installed.{placed-fence_bounds}
use quickstep.Node.Examples.{blank, blank_word, blank_size, fences, fences-IsNode, fences_count}
use quickstep.Node.Examples.{nothing_there, lowest, key, one}
use quickstep.PageOp.{key_values}
use quickstep.PageOp.Split.{LeafSplitPlan, split_done, apply, from_node}
use quickstep.PageOp.Split.Refill.{IsFilling, IsRefilled}
use quickstep.PageOp.Split.Applied.{apply-IsRefilled}
use quickstep.PageOp.Split.Balance.{IsPlanOf, from_node-IsPlanOf}
use quickstep.PageOp.Merge.{LeafMergePlan, merge_apply, merge_done}
use quickstep.PageOp.Merge.Applied.{merge_apply-IsRefilled}
use quickstep.PageOp.Access.{page_get, page_try_put, success}
use quickstep.PageOp.Access.Cached.{page_get-page_try_put}

from_node-IsPlanOf_example : IsPlanOf one (from_node one)
from_node-IsPlanOf_example = from_node-IsPlanOf one

abbrev plan : LeafSplitPlan
plan = record {
  prefix = [];
  pivot_key = 100 ∷ [];
  left_entries = record { key = 5 ∷ []; value = 7 ∷ [] } ∷ [];
  right_entries = record { key = 100 ∷ []; value = 8 ∷ [] } ∷ [];
  lower_fence = 0 ∷ [];
  upper_fence = 255 ∷ [];
}

left_fits : IsFilling plan.lower_fence plan.pivot_key (key_values plan.left_entries) blank
unfolding key_values with_prefix common_prefix needed size_in_bytes size_in_words index
left_fits = record {
  size = n128;
  size_of = blank_size;
  header = blank_word;
  suffixes = (5 ∷ [], 7 ∷ []) ∷ [];
  keys = refl;
  fresh = (key, refl, tt);
  room = omega arith;
}

right_fits : IsFilling plan.pivot_key plan.upper_fence (key_values plan.right_entries) blank
unfolding key_values with_prefix common_prefix needed size_in_bytes size_in_words index
right_fits = record {
  size = n128;
  size_of = blank_size;
  header = blank_word;
  suffixes = (100 ∷ [], 8 ∷ []) ∷ [];
  keys = refl;
  fresh = ((omega arith, tt), refl, tt);
  room = omega arith;
}

apply-IsRefilled_example :
    (left' : Node) × (right' : Node) × (apply plan blank blank
      ≡ split_done (record { pivot_key = 100 ∷ []; left_count = 1; right_count = 1 }) left' right')
    × IsRefilled (0 ∷ []) (100 ∷ []) left_fits.suffixes left'
    × IsRefilled (100 ∷ []) (255 ∷ []) right_fits.suffixes right'
apply-IsRefilled_example = apply-IsRefilled plan blank blank left_fits right_fits

abbrev merge_plan : LeafMergePlan
merge_plan = record {
  entries = plan.left_entries;
  survivor_lower = 0 ∷ [];
  survivor_upper = 100 ∷ [];
  removed_lower = 50 ∷ [];
  removed_upper = 100 ∷ [];
}

merge_apply-IsRefilled_example :
    (survivor' : Node) × (removed' : Node) × (merge_apply merge_plan blank blank
      ≡ merge_done 1 survivor' removed')
    × IsRefilled (0 ∷ []) (100 ∷ []) left_fits.suffixes survivor'
    × IsNode removed'
    × (count removed' ≡ 2)
    × (fence_bounds removed' ≡ (50 ∷ [], 100 ∷ []))
unfolding size_in_bytes size_in_words index
merge_apply-IsRefilled_example =
    merge_apply-IsRefilled merge_plan blank blank n128 left_fits blank_size blank_word (omega arith)

no_prefix : get_node_prefix fences ≡ []
unfolding fences get_node_prefix common_prefix
no_prefix =
    ap (λ b. common_prefix b.0 b.1)
      (placed-fence_bounds (0 ∷ []) (255 ∷ []) blank 127 blank_word (omega arith) (omega arith))

no_value : value_of fences (5 ∷ []) ≡ none
no_value = rw (nothing_there, value_of) refl

page_get-page_try_put_example :
    (cache' : ℕ → Node) × (page_try_put (mini_page 3) (λ i. fences) (5 ∷ []) (7 ∷ [])
      ≡ some (success, cache'))
    × (page_get (λ addr. blank) (mini_page 3) cache' none (5 ∷ []) ≡ some (some (7 ∷ []), none))
    × IsNode (cache' 3)
    × ((t : List ℕ) → All IsByte t → t ≢ 5 ∷ [] → value_of (cache' 3) t ≡ value_of fences t)
    × ((j : ℕ) → j ≢ 3 → cache' j ≡ fences)
page_get-page_try_put_example =
    page_get-page_try_put (λ addr. blank) (λ i. fences) 3 126 none [] (5 ∷ []) (7 ∷ [])
      fences-IsNode no_prefix key no_value (λ i high. find_min_offset-le fences 126 i lowest high)
      (omega arith) (omega (arith, fences_count))
