-- ===== src/Node/Put/Replay.antt =====
-- `replay_entries`: many records that are put one by one.
use quickstep.Base.{ℕ, ◌+◌, ◌-◌, ◌≤◌, ◌≡◌, ◌≢◌, inl, inr, refl, ap, sym, ◌∙◌, arith}
use quickstep.Base.{List, [], ◌∷◌, ◌++◌, Option, none, some, false, All, length, ltb}
use quickstep.Base.{length-append, drop-length-append}
use quickstep.Base.Bytes.{IsByte}
use quickstep.Base.Order.{compare_bytes, compare_bytes-eq, compare_bytes_refl}
use Prim.Native.Nat.{Ordering}
use Ordering.{eq, gt}
use quickstep.Node.Search.Loop.{Ordering-cases, eq_ne_lt}
use quickstep.Node.{
  Node, count, meta_addr, fence_bounds, get_node_prefix, slice_from, common_prefix,
}
use quickstep.Node.Search.Lookup.{value_of}
use quickstep.Node.Layout.{IsNode}
use quickstep.Node.Put.{put_done, try_put, try_put_with_suffix, replay_entries}
use quickstep.Node.Put.Room.{IsAbove, IsPutIn, try_put_with_suffix-IsPutIn}

-- A map from key suffixes to values.
abbrev pub Values : Type 0
Values = List ℕ → Option (List ℕ)

unfoldable pub map_put : List ℕ → List ℕ → Values → Values
map_put s val f t = elim (compare_bytes t s) [ eq ↦ some val | _ ↦ f t ]

unfoldable pub map_put_all : List (List ℕ × List ℕ) → Values → Values
map_put_all [] f = f
map_put_all ((s, val) ∷ es) f = map_put_all es (map_put s val f)

-- Keys of bytes, each new to the map when its turn comes.
abbrev pub IsFresh : List (List ℕ × List ℕ) → Values → Type 0
IsFresh [] f = Unit
IsFresh ((s, val) ∷ es) f = All IsByte s × (f s ≡ none) × IsFresh es (map_put s val f)

-- The full keys.
unfoldable pub with_prefix : List ℕ → List (List ℕ × List ℕ) → List (List ℕ × List ℕ)
with_prefix p [] = []
with_prefix p ((s, val) ∷ es) = (p ++ s, val) ∷ with_prefix p es

-- The bytes of the records and of their words.
unfoldable pub needed : List (List ℕ × List ℕ) → ℕ
needed [] = 0
needed ((s, val) ∷ es) = 8 + (length s + length val) + needed es

pub slice_from-append : (p s : List ℕ) → slice_from (length p) (p ++ s) ≡ some s
unfolding slice_from
slice_from-append p s =
    let long : ltb (length (p ++ s)) (length p) ≡ false = ground (arith, length-append p s) in
    rw long (ap some (drop-length-append p s))

pub try_put_prefixed :
    (p s val : List ℕ) (n : Node)
    → get_node_prefix n ≡ p
    → try_put (p ++ s) val n ≡ try_put_with_suffix s val n
unfolding try_put
try_put_prefixed p s val n same = rw (same, slice_from-append p s, try_put) refl

eq_ne_gt : (o : Ordering) → o ≡ eq → o ≢ gt
eq_ne_gt o h k = ground arith

same_is_eq : (t s : List ℕ) → t ≡ s → compare_bytes t s ≡ eq
same_is_eq t s e = ap (compare_bytes t) (sym e) ∙ compare_bytes_refl t

differs : (t s : List ℕ) → compare_bytes t s ≢ eq → t ≢ s
differs t s other e = other (same_is_eq t s e)

put_agrees :
    (n n' : Node) (b : ℕ) (s val : List ℕ) (f : Values)
    → IsPutIn n b s val n'
    → ((t : List ℕ) → All IsByte t → value_of n t ≡ f t)
    → (t : List ℕ) → All IsByte t
    → value_of n' t ≡ map_put s val f t
unfolding map_put
put_agrees n n' b s val f h agree t ht = elim (Ordering-cases (compare_bytes t s)) [
  | inl less ↦
      rw (less, map_put) (h.put.others t ht (differs t s (λ e. eq_ne_lt _ e less)) ∙ agree t ht)
  | inr (inl same) ↦ rw (same, map_put) (ap (value_of n') (compare_bytes-eq t s same) ∙ h.put.here)
  | inr (inr more) ↦
      rw (more, map_put) (h.put.others t ht (differs t s (λ e. eq_ne_gt _ e more)) ∙ agree t ht)
]

pub prefix_kept :
    (n n' : Node) → fence_bounds n' ≡ fence_bounds n → get_node_prefix n' ≡ get_node_prefix n
unfolding get_node_prefix
prefix_kept n n' same = ap (λ b. common_prefix b.0 b.1) same

pub record IsReplayed (n : Node) (es : List (List ℕ × List ℕ)) (f : Values) (n' : Node)
    : Type 0 where
  pub node : IsNode n'
  pub total : count n' ≡ count n + length es
  pub bounds : fence_bounds n' ≡ fence_bounds n
  pub values : (t : List ℕ) → All IsByte t → value_of n' t ≡ map_put_all es f t

pub replay_entries-IsReplayed :
    (es : List (List ℕ × List ℕ)) (n : Node) (p : List ℕ) (b : ℕ) (f : Values)
    → IsNode n
    → IsAbove b n
    → b ≤ 4096
    → get_node_prefix n ≡ p
    → ((t : List ℕ) → All IsByte t → value_of n t ≡ f t)
    → IsFresh es f
    → meta_addr (count n) + needed es ≤ b
    → (n' : Node) × (replay_entries (with_prefix p es) n ≡ put_done n') × IsReplayed n es f n'
unfolding replay_entries with_prefix needed map_put_all
replay_entries-IsReplayed [] n p b f h above in_page same agree fresh room =
    (n, refl, record { node = h; total = omega arith; bounds = refl; values = agree })
replay_entries-IsReplayed ((s, val) ∷ es) n p b f h above in_page same agree (hs, new, fresh) room =
    let (n₁, puts, first) =
      try_put_with_suffix-IsPutIn n s val b h hs above in_page (omega arith) (agree s hs ∙ new) in
    let (n', replays, rest) =
      replay_entries-IsReplayed es n₁ p (b - (length s + length val)) (map_put s val f)
        first.put.node first.above (omega arith) (prefix_kept n n₁ first.bounds ∙ same)
        (put_agrees n n₁ b s val f first agree) fresh (omega (arith, first.one_more)) in
    (
      n',
      rw (try_put_prefixed p s val n same ∙ puts, replay_entries) replays,
      record {
        node = rest.node;
        total = omega (arith, rest.total, first.one_more);
        bounds = rest.bounds ∙ first.bounds;
        values = rest.values;
      },
    )
