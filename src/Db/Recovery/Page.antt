-- ===== src/Db/Recovery/Page.antt =====
-- `replay_wal` on one page.
use quickstep.Base.{ℕ, ◌≡◌, ◌≢◌, ◌⊎◌, cons≢nil, inl, inr, refl, ap, sym, ◌∙◌, arith, Bool-cases}
use quickstep.Base.{List, [], ◌∷◌, ◌++◌, Option, none, some, All}
use quickstep.Base.Bytes.{IsByte}
use quickstep.MapTable.Entry.{leaf_ref}
use quickstep.Wal.Record.{WalRecord}
use quickstep.Node.{Node, fence_bounds, get_node_prefix, common_prefix}
use quickstep.Node.Search.Lookup.{value_of}
use quickstep.Node.Layout.{IsNode}
use quickstep.Node.Put.{put_done}
use quickstep.PageOp.Access.{set_node}
use quickstep.PageOp.Split.{refill_with}
use quickstep.PageOp.Split.Refill.{IsFilling, IsRefilled, refill_with-IsRefilled}
use quickstep.Db.{Db}
use quickstep.Db.Recovery.{Entries, Statuses, Replayed, replay_records, applies, fences_of}
use quickstep.Db.Recovery.{to_map, collect_user_records, collect_fence_keys, rewrite_leaf}
use quickstep.Db.Recovery.{replay_leaf, disk_addr_of, apply_wal_op}
use quickstep.Db.Recovery.Entries.{find, or_else, map_put_all-find, find-with_prefix}
use quickstep.Db.Recovery.Records.{find-collect_user_records}
use quickstep.Db.Recovery.Outcome.{key_state, replay_records-key_state}

-- The leaf, as the replay starts with it.
abbrev pub loaded : Node → Replayed
loaded n = record { bounds = none; entries = to_map (collect_user_records n) [] }

-- All records show the same fences.
abbrev pub IsFenced : List ℕ × List ℕ → List WalRecord → Type 0
IsFenced fences [] = Unit
IsFenced fences (r ∷ rs) = ((r.lower_fence, r.upper_fence) ≡ fences) × IsFenced fences rs

fences_kept :
    (statuses : Statuses) (fences : List ℕ × List ℕ) (rs : List WalRecord) (s : Replayed)
    → IsFenced fences rs
    → fences_of s.bounds fences ≡ fences
    → fences_of (replay_records statuses rs s).bounds fences ≡ fences
unfolding replay_records fences_of
fences_kept statuses fences [] s all here = here
fences_kept statuses fences (r ∷ rs) s (same, all) here = elim (Bool-cases (applies statuses r)) [
  | inl takes ↦
      rw (takes, replay_records)
        (fences_kept statuses fences rs
          (record {
            bounds = some (r.lower_fence, r.upper_fence);
            entries = apply_wal_op r.key r.op s.entries;
          })
          all same)
  | inr skips ↦ rw (skips, replay_records) (fences_kept statuses fences rs s all here)
]

collect_fence_keys-fence_bounds :
    (n : Node) → IsNode n → collect_fence_keys n ≡ some (fence_bounds n)
unfolding collect_fence_keys fence_bounds
collect_fence_keys-fence_bounds n h =
    ground (arith, h.ordered.two, h.ordered.lower_fence, h.ordered.upper_fence)

-- A leaf on disk whose fences the records show, and whose entries fit it again when the log has been
-- applied to them.
pub record IsReplayable (statuses : Statuses) (rs : List WalRecord) (leaf : Node) : Type 0 where
  pub node : IsNode leaf
  pub fenced : IsFenced (fence_bounds leaf) rs
  pub fits :
      IsFilling
        (fence_bounds leaf).0
        (fence_bounds leaf).1
        (replay_records statuses rs (loaded leaf)).entries
        leaf

or_else-none : (v : Option (List ℕ)) → or_else v none ≡ v
or_else-none none = refl
or_else-none (some v) = refl

refilled_values :
    (statuses : Statuses) (rs : List WalRecord) (leaf n' : Node) (h : IsReplayable statuses rs leaf)
    → IsRefilled (fence_bounds leaf).0 (fence_bounds leaf).1 h.fits.suffixes n'
    → (t : List ℕ) → All IsByte t
    → value_of n' t ≡ key_state statuses (get_node_prefix leaf ++ t) rs (value_of leaf t)
unfolding get_node_prefix
refilled_values statuses rs leaf n' h done t ht =
    let p = common_prefix (fence_bounds leaf).0 (fence_bounds leaf).1 in
    done.values t ht
    ∙ map_put_all-find h.fits.suffixes (λ x. none) t h.fits.fresh
    ∙ or_else-none (find t h.fits.suffixes)
    ∙ sym (find-with_prefix p t h.fits.suffixes)
    ∙ ap (find (p ++ t)) (sym h.fits.keys)
    ∙ replay_records-key_state statuses rs (loaded leaf) (p ++ t)
    ∙ ap (key_state statuses (p ++ t) rs) (find-collect_user_records leaf h.node t ht)

empty_or_not : (es : Entries) → (es ≡ []) ⊎ (es ≢ [])
empty_or_not [] = inl refl
empty_or_not (e ∷ es) = inr cons≢nil

-- The leaf is written back with what has become of its entries.
rewritten :
    (statuses : Statuses) (rs : List WalRecord) (addr : ℕ) (db : Db) (n' : Node) (es : Entries)
    → IsNode (db.disk addr)
    → fences_of
        (replay_records statuses rs (loaded (db.disk addr))).bounds
        (fence_bounds (db.disk addr))
      ≡ fence_bounds (db.disk addr)
    → (replay_records statuses rs (loaded (db.disk addr))).entries ≡ es
    → es ≢ []
    → refill_with (fence_bounds (db.disk addr)).0 (fence_bounds (db.disk addr)).1 es (db.disk addr)
      ≡ put_done n'
    → replay_leaf statuses (leaf_ref addr) rs db
      ≡ some (record db { disk = set_node db.disk addr n' })
unfolding replay_leaf disk_addr_of rewrite_leaf
rewritten statuses rs addr db n' [] node fences left some_left fill = absurd (some_left refl)
rewritten statuses rs addr db n' (e ∷ es) node fences left some_left fill =
    rw (collect_fence_keys-fence_bounds (db.disk addr) node, left, fences, replay_leaf)
      (rw (left, fill, rewrite_leaf) refl)

-- The leaf becomes a node with the same fences in which each key has its value of the map; or, if no
-- key has a value there, nothing at all happens, and the leaf stays as it is.
abbrev pub IsReplayed : ℕ → Db → (List ℕ → Option (List ℕ)) → Option Db → Type 0
IsReplayed addr db f result =
    ((n' : Node) × (result ≡ some (record db { disk = set_node db.disk addr n' }))
      × IsNode n'
      × (fence_bounds n' ≡ fence_bounds (db.disk addr))
      × ((t : List ℕ) → All IsByte t → value_of n' t ≡ f t))
    ⊎ ((result ≡ some db) × ((t : List ℕ) → All IsByte t → f t ≡ none))

-- What the records say of a key of a leaf.
abbrev pub leaf_state : Statuses → List WalRecord → Node → List ℕ → Option (List ℕ)
leaf_state statuses rs leaf t = key_state statuses (get_node_prefix leaf ++ t) rs (value_of leaf t)

emptied :
    (statuses : Statuses) (rs : List WalRecord) (addr : ℕ) (db : Db)
    → IsNode (db.disk addr)
    → (replay_records statuses rs (loaded (db.disk addr))).entries ≡ []
    → IsReplayed addr db
        (leaf_state statuses rs (db.disk addr))
        (replay_leaf statuses (leaf_ref addr) rs db)
unfolding replay_leaf disk_addr_of
emptied statuses rs addr db node left =
    let leaf = db.disk addr in
    inr (
      rw (collect_fence_keys-fence_bounds leaf node, left, replay_leaf) refl,
      λ t ht.
          let p = get_node_prefix leaf in
          ap (key_state statuses (p ++ t) rs) (sym (find-collect_user_records leaf node t ht))
          ∙ sym (replay_records-key_state statuses rs (loaded leaf) (p ++ t))
          ∙ ap (find (p ++ t)) left,
    )

filled :
    (statuses : Statuses) (rs : List WalRecord) (addr : ℕ) (db : Db)
    (h : IsReplayable statuses rs (db.disk addr))
    → (replay_records statuses rs (loaded (db.disk addr))).entries ≢ []
    → IsReplayed addr db
        (leaf_state statuses rs (db.disk addr))
        (replay_leaf statuses (leaf_ref addr) rs db)
unfolding fences_of
filled statuses rs addr db h some_left =
    let leaf = db.disk addr in
    let es = (replay_records statuses rs (loaded leaf)).entries in
    let fences = fences_kept statuses (fence_bounds leaf) rs (loaded leaf) h.fenced refl in
    let (n', fill, done) =
      refill_with-IsRefilled (fence_bounds leaf).0 (fence_bounds leaf).1 es leaf h.fits in
    inl (
      n',
      rewritten statuses rs addr db n' es h.node fences refl some_left fill,
      done.node,
      done.bounds,
      refilled_values statuses rs leaf n' h done,
    )

-- A leaf on disk is replayed: each key of it has the value that the records of the page give it over
-- the old one, unless they give no key a value.
pub replay_leaf-IsReplayed :
    (statuses : Statuses) (rs : List WalRecord) (addr : ℕ) (db : Db)
    (h : IsReplayable statuses rs (db.disk addr))
    → IsReplayed addr db
        (leaf_state statuses rs (db.disk addr))
        (replay_leaf statuses (leaf_ref addr) rs db)
replay_leaf-IsReplayed statuses rs addr db h =
    elim (empty_or_not (replay_records statuses rs (loaded (db.disk addr))).entries) [
      | inl left ↦ emptied statuses rs addr db h.node left
      | inr some_left ↦ filled statuses rs addr db h some_left
    ]
