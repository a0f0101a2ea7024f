-- ===== src/PageOp/Merge.antt =====
-- LeafMergePlan: the entries of two neighbours go to the left one.
pub mod Applied
use quickstep.Base.{ℕ, List, ◌++◌, Option, none, some, length}
use quickstep.Node.{Node, fence_bounds}
use quickstep.Node.Put.{PutResult, put_done, insufficient_space, put_panic}
use quickstep.Node.Fences.{reset_user_entries_with_fences}
use quickstep.PageOp.{LeafEntryOwned, owned_entries}
use quickstep.PageOp.Split.{refill}

pub record LeafMergePlan : Type 0 where
  pub entries : List LeafEntryOwned
  pub survivor_lower : List ℕ
  pub survivor_upper : List ℕ
  pub removed_lower : List ℕ
  pub removed_upper : List ℕ

unfoldable pub from_nodes : Node → Node → LeafMergePlan
from_nodes left right =
    let bounds = fence_bounds right in
    record {
      entries = owned_entries left ++ owned_entries right;
      survivor_lower = (fence_bounds left).0;
      survivor_upper = bounds.1;
      removed_lower = bounds.0;
      removed_upper = bounds.1;
    }

-- `Ok` with the merged count, `Err` and a panic.
pub data MergeResult : Type 0 where
  merge_done : (merged_count : ℕ) (survivor removed : Node) → MergeResult
  merge_no_space : (survivor removed : Node) → MergeResult
  merge_panic : MergeResult

unfoldable pub merge_apply : LeafMergePlan → Node → Node → MergeResult
merge_apply plan survivor removed =
    elim (refill plan.survivor_lower plan.survivor_upper plan.entries survivor) [
      | put_panic ↦ merge_panic
      | insufficient_space survivor' ↦ merge_no_space survivor' removed
      | put_done survivor' ↦
          elim (reset_user_entries_with_fences plan.removed_lower plan.removed_upper removed) [
            | none ↦ merge_panic
            | some removed' ↦ merge_done (length plan.entries) survivor' removed'
          ]
    ]
