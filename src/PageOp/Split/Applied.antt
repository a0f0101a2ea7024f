-- ===== src/PageOp/Split/Applied.antt =====
-- A split plan that fits both leaves, and a merge plan that fits the one that stays.
use quickstep.Base.{◌≡◌, refl, length}
use quickstep.Node.{Node}
use quickstep.PageOp.{key_values}
use quickstep.PageOp.Split.{LeafSplitPlan, split_done, apply}
use quickstep.PageOp.Split.Refill.{IsFilling, IsRefilled, refill-IsRefilled}

-- A plan whose entries fit both leaves: applying it succeeds. The left leaf has the lower fence and
-- the pivot as its fences and holds the left entries, each key found with its value, and no others;
-- the right leaf has the pivot and the upper fence, and holds the right entries.
pub apply-IsRefilled :
    (plan : LeafSplitPlan) (left right : Node)
    (hl : IsFilling plan.lower_fence plan.pivot_key (key_values plan.left_entries) left)
    (hr : IsFilling plan.pivot_key plan.upper_fence (key_values plan.right_entries) right)
    → (left' : Node) × (right' : Node) × (apply plan left right
        ≡ split_done
            (record {
              pivot_key = plan.pivot_key;
              left_count = length plan.left_entries;
              right_count = length plan.right_entries;
            })
            left'
            right')
      × IsRefilled plan.lower_fence plan.pivot_key hl.suffixes left'
      × IsRefilled plan.pivot_key plan.upper_fence hr.suffixes right'
unfolding apply
apply-IsRefilled plan left right hl hr =
    let (left', fills_left, done_left) = refill-IsRefilled _ _ _ left hl in
    let (right', fills_right, done_right) = refill-IsRefilled _ _ _ right hr in
    (left', right', rw (fills_left, fills_right, apply) refl, done_left, done_right)
