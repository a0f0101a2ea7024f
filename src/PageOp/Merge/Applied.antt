-- ===== src/PageOp/Merge/Applied.antt =====
-- A merge plan that fits the leaf that stays.
use quickstep.Base.{◌+◌, ◌≤◌, ◌≡◌, refl, length, some}
use quickstep.Base.Words.{IsU64}
use quickstep.Types.NodeSize.{NodeSize, size_in_bytes}
use quickstep.Types.NodeMeta
use quickstep.Node.{Node, count, fence_bounds}
use quickstep.Node.Layout.{IsNode}
use quickstep.Node.Fences.{reset_user_entries_with_fences}
use quickstep.Node.Fences.Installed.{install_fences-IsNode}
use quickstep.PageOp.{key_values}
use quickstep.PageOp.Split.Refill.{IsFilling, IsRefilled, refill-IsRefilled}
use quickstep.PageOp.Merge.{LeafMergePlan, merge_done, merge_apply}

-- A plan whose entries fit the leaf that stays, and whose other fences fit the other leaf: applying
-- it succeeds. The leaf that stays holds the entries, each key found with its value, and no others;
-- the other one is left with its two fences alone.
pub merge_apply-IsRefilled :
    (plan : LeafMergePlan) (survivor removed : Node) (size : NodeSize)
    (h : IsFilling plan.survivor_lower plan.survivor_upper (key_values plan.entries) survivor)
    → NodeMeta.size removed.header ≡ some size
    → IsU64 removed.header.w0
    → 32 + length plan.removed_lower + length plan.removed_upper ≤ size_in_bytes size
    → (survivor' : Node) × (removed' : Node) × (merge_apply plan survivor removed
        ≡ merge_done (length plan.entries) survivor' removed')
      × IsRefilled plan.survivor_lower plan.survivor_upper h.suffixes survivor'
      × IsNode removed'
      × (count removed' ≡ 2)
      × (fence_bounds removed' ≡ (plan.removed_lower, plan.removed_upper))
unfolding merge_apply reset_user_entries_with_fences
merge_apply-IsRefilled plan survivor removed size h size_of header room =
    let (survivor', fills, done) = refill-IsRefilled _ _ _ survivor h in
    let (removed', resets, node, two, bounds) =
      install_fences-IsNode plan.removed_lower plan.removed_upper removed size size_of header
        room in
    (
      survivor',
      removed',
      rw (fills, resets, merge_apply, reset_user_entries_with_fences) refl,
      done,
      node,
      two,
      bounds,
    )
