-- ===== src/PageOp/Split/Refill.antt =====
-- `reset_user_entries_with_fences` and then `replay_entries`.
use quickstep.Base.{ℕ, ◌+◌, ◌-◌, ◌≤◌, ◌≡◌, ap, ◌∙◌, arith}
use quickstep.Base.{List, none, some, false, All, length, ltb}
use quickstep.Base.Bytes.{IsByte}
use quickstep.Base.Words.{IsU64}
use quickstep.Types.NodeSize.{NodeSize, size_in_bytes}
use quickstep.Types.NodeMeta
use quickstep.Node.{Node, count, fence_bounds, get_node_prefix, common_prefix}
use quickstep.Node.Search.Lookup.{value_of, value_of_absent}
use quickstep.Node.Layout.{IsNode}
use quickstep.Node.Put.{put_done}
use quickstep.Node.Put.Replay.{with_prefix, needed, IsFresh, map_put_all}
use quickstep.Node.Put.Replay.{replay_entries-IsReplayed}
use quickstep.Node.Fences.{install_fences, place_fences, reset_user_entries_with_fences}
use quickstep.Node.Fences.Installed.{placed-IsNode, count-placed, placed-fence_bounds, above_fences}
use quickstep.Node.Fences.Installed.{size_in_bytes-le}
use quickstep.PageOp.{LeafEntryOwned, key_values}
use quickstep.PageOp.Split.{refill, refill_with}

-- Entries that fit a leaf with the given fences: their keys have the prefix of the fences, no two
-- are the same, and the page has room for them beside the header and the fences.
pub record IsFilling (lower upper : List ℕ) (records : List (List ℕ × List ℕ)) (n : Node)
    : Type 0 where
  pub size : NodeSize
  pub size_of : NodeMeta.size n.header ≡ some size
  pub header : IsU64 n.header.w0
  pub suffixes : List (List ℕ × List ℕ)
  pub keys : records ≡ with_prefix (common_prefix lower upper) suffixes
  pub fresh : IsFresh suffixes (λ t. none)
  pub room : 32 + length lower + length upper + needed suffixes ≤ size_in_bytes size

-- The leaf holds those entries and no others.
pub record IsRefilled (lower upper : List ℕ) (es : List (List ℕ × List ℕ)) (n' : Node)
    : Type 0 where
  pub node : IsNode n'
  pub total : count n' ≡ 2 + length es
  pub bounds : fence_bounds n' ≡ (lower, upper)
  pub values : (t : List ℕ) → All IsByte t → value_of n' t ≡ map_put_all es (λ x. none) t

pub refill_with-IsRefilled :
    (lower upper : List ℕ) (records : List (List ℕ × List ℕ)) (n : Node)
    (h : IsFilling lower upper records n)
    → (n' : Node) × (refill_with lower upper records n ≡ put_done n')
      × IsRefilled lower upper h.suffixes n'
unfolding refill_with reset_user_entries_with_fences install_fences get_node_prefix
refill_with-IsRefilled lower upper records n h =
    let at : ℕ = size_in_bytes h.size - length upper in
    let fits : ltb (size_in_bytes h.size) (length upper + length lower) ≡ false =
      ground (arith, h.room) in
    let inside : at + length upper ≤ 4096 = omega (arith, size_in_bytes-le h.size, h.room) in
    let free : 32 + length lower ≤ at = omega (arith, h.room) in
    let placed : Node = place_fences lower upper n at in
    let node = placed-IsNode lower upper n at h.header inside free in
    let two = count-placed lower upper n at h.header inside free in
    let bounds = placed-fence_bounds lower upper n at h.header inside free in
    let (n', replays, done) =
      replay_entries-IsReplayed h.suffixes placed (common_prefix lower upper) (at - length lower)
        (λ t. none) node (above_fences lower upper n at h.header inside free) (omega arith)
        (ap (λ b. common_prefix b.0 b.1) bounds)
        (λ t ht. value_of_absent placed t node.ordered ht λ i u key. omega (arith, two, u.0, u.1))
        h.fresh (omega (arith, two, h.room)) in
    (
      n',
      rw (h.size_of, fits, h.keys, refill_with, reset_user_entries_with_fences, install_fences)
          replays,
      record {
        node = done.node;
        total = omega (arith, done.total, two);
        bounds = done.bounds ∙ bounds;
        values = done.values;
      },
    )

pub refill-IsRefilled :
    (lower upper : List ℕ) (owned : List LeafEntryOwned) (n : Node)
    (h : IsFilling lower upper (key_values owned) n)
    → (n' : Node) × (refill lower upper owned n ≡ put_done n')
      × IsRefilled lower upper h.suffixes n'
unfolding refill
refill-IsRefilled lower upper owned n h = refill_with-IsRefilled lower upper (key_values owned) n h
