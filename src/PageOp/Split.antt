-- ===== src/PageOp/Split.antt =====
-- LeafSplitPlan: the upper half of the entries goes to another leaf.
pub mod Refill
pub mod Applied
pub mod Balance
use quickstep.Base.{ℕ, ◌/◌, List, [], ◌∷◌, ◌++◌, Option, none, some, length, take, drop}
use quickstep.Node.{Node, entries, get_node_prefix, fence_bounds}
use quickstep.Node.Put.{PutResult, put_done, insufficient_space, put_panic, replay_entries}
use quickstep.Node.Fences.{reset_user_entries_with_fences}
use quickstep.PageOp.{LeafEntryOwned, live_entries, to_owned, key_values}

pub record LeafSplitPlan : Type 0 where
  pub prefix : List ℕ
  pub pivot_key : List ℕ
  pub left_entries : List LeafEntryOwned
  pub right_entries : List LeafEntryOwned
  pub lower_fence : List ℕ
  pub upper_fence : List ℕ

-- `none` is the panic of a leaf without entries.
unfoldable pub from_node : Node → Option LeafSplitPlan
from_node n =
    let prefix = get_node_prefix n in
    let live = live_entries (entries n) in
    let move_start = length live / 2 in
    elim (drop move_start live) [
      | [] ↦ none
      | ◌∷◌ pivot rest ↦ some (record {
        prefix = prefix;
        pivot_key = prefix ++ pivot.key_suffix;
        left_entries = to_owned prefix (take move_start live);
        right_entries = to_owned prefix (drop move_start live);
        lower_fence = (fence_bounds n).0;
        upper_fence = (fence_bounds n).1;
      })
    ]

pub record LeafSplitOutcome : Type 0 where
  pub pivot_key : List ℕ
  pub left_count : ℕ
  pub right_count : ℕ

-- `Ok`, `Err` and a panic, with both leaves afterwards.
pub data SplitResult : Type 0 where
  split_done : (outcome : LeafSplitOutcome) (left right : Node) → SplitResult
  split_no_space : (left right : Node) → SplitResult
  split_panic : SplitResult

-- Fences, and then the records.
unfoldable pub refill_with : List ℕ → List ℕ → List (List ℕ × List ℕ) → Node → PutResult
refill_with lower upper es n = elim (reset_user_entries_with_fences lower upper n) [
  | none ↦ put_panic
  | some n' ↦ replay_entries es n'
]

-- The entries of one side.
unfoldable pub refill : List ℕ → List ℕ → List LeafEntryOwned → Node → PutResult
refill lower upper es n = refill_with lower upper (key_values es) n

unfoldable pub apply : LeafSplitPlan → Node → Node → SplitResult
apply plan left right = elim (refill plan.lower_fence plan.pivot_key plan.left_entries left) [
  | put_panic ↦ split_panic
  | insufficient_space left' ↦ split_no_space left' right
  | put_done left' ↦ elim (refill plan.pivot_key plan.upper_fence plan.right_entries right) [
    | put_panic ↦ split_panic
    | insufficient_space right' ↦ split_no_space left' right'
    | put_done right' ↦
        split_done
          (record {
            pivot_key = plan.pivot_key;
            left_count = length plan.left_entries;
            right_count = length plan.right_entries;
          })
          left' right'
  ]
]
