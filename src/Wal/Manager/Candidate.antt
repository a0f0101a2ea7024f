-- ===== src/Wal/Manager/Candidate.antt =====
-- The page that the global thresholds pick for a checkpoint.
use quickstep.Base.{
  ℕ, ◌≤◌, ◌<◌, ◌≡◌, ◌≢◌, ◌⊎◌, inl, inr, refl, sym, ◌∙◌, arith, [], ◌∷◌, Option, none, some,
}
use quickstep.Base.{true, false, true≢false, Bool-cases, ==_iff, ◌==◌, leb, ltb, ◌&&◌}
use quickstep.Wal.Record.{txn_meta_page_id}
use quickstep.Wal.Manager.State.{LeafCounts, LeafWalStats, WalState, max_by_bytes}
use quickstep.Wal.Manager.State.{global_checkpoint_candidate}

-- An entry with `bytes` bytes for the page stands in the map.
abbrev pub Holds : ℕ → ℕ → LeafCounts → Type 0
Holds page bytes [] = ⊥
Holds page bytes ((p, s) ∷ m) = ((page ≡ p) × (bytes ≡ s.bytes)) ⊎ Holds page bytes m

-- No page but that of the transaction markers has more bytes.
abbrev pub IsMost : ℕ → LeafCounts → Type 0
IsMost bytes [] = Unit
IsMost bytes ((p, s) ∷ m) = ((p ≡ txn_meta_page_id) ⊎ (s.bytes ≤ bytes)) × IsMost bytes m

-- Every entry is that of the transaction markers.
abbrev pub IsMeta : LeafCounts → Type 0
IsMeta [] = Unit
IsMeta ((p, s) ∷ m) = (p ≡ txn_meta_page_id) × IsMeta m

-- What a pick has to be.
abbrev pub IsPick : LeafCounts → Option (ℕ × ℕ) → Type 0
IsPick m none = IsMeta m
IsPick m (some (page, bytes)) = (page ≢ txn_meta_page_id) × Holds page bytes m × IsMost bytes m

-- From the best entry so far, at least as good a one.
Improves : ℕ → ℕ → LeafCounts → Type 0
Improves p b m =
    (q : ℕ) × (c : ℕ) × (max_by_bytes m (some (p, b)) ≡ some (q, c))
    × (q ≢ txn_meta_page_id)
    × (b ≤ c)
    × (((q ≡ p) × (c ≡ b)) ⊎ Holds q c m)
    × IsMost c m

is_meta : (page : ℕ) → (page == txn_meta_page_id) ≡ true → page ≡ txn_meta_page_id
is_meta page h = (==_iff page txn_meta_page_id).0 h

not_meta : (page : ℕ) → (page == txn_meta_page_id) ≡ false → page ≢ txn_meta_page_id
not_meta page h e = true≢false (sym ((==_iff page txn_meta_page_id).1 e) ∙ h)

max_by_bytes-Improves : (m : LeafCounts) (p b : ℕ) → p ≢ txn_meta_page_id → Improves p b m
unfolding Improves max_by_bytes
max_by_bytes-Improves [] p b h = (p, b, refl, h, omega arith, inl (refl, refl), tt)
max_by_bytes-Improves ((page, s) ∷ m) p b h = elim (Bool-cases (page == txn_meta_page_id)) [
  | inl meta ↦
      let (q, c, e, n, le, place, most) = max_by_bytes-Improves m p b h in
      rw meta (
        q,
        c,
        e,
        n,
        le,
        elim place [ inl x ↦ inl x | inr x ↦ inr (inr x) ],
        (inl (is_meta page meta), most),
      )
  | inr other ↦ elim (Bool-cases (leb b s.bytes)) [
    | inl more ↦
        let (q, c, e, n, le, place, most) =
          max_by_bytes-Improves m page s.bytes (not_meta page other) in
        rw (other, more) (q, c, e, n, ground arith, inr place, (inr le, most))
    | inr less ↦
        let (q, c, e, n, le, place, most) = max_by_bytes-Improves m p b h in
        rw (other, less)
          (
            q,
            c,
            e,
            n,
            le,
            elim place [ inl x ↦ inl x | inr x ↦ inr (inr x) ],
            (inr (ground arith), most),
          )
  ]
]

skip_meta :
    (page : ℕ) (s : LeafWalStats) (m : LeafCounts) (o : Option (ℕ × ℕ))
    → page ≡ txn_meta_page_id
    → IsPick m o
    → IsPick ((page, s) ∷ m) o
skip_meta page s m none e h = (e, h)
skip_meta page s m (some (q, c)) e (n, place, most) = (n, inr place, (inl e, most))

max_by_bytes-IsPick : (m : LeafCounts) → IsPick m (max_by_bytes m none)
unfolding max_by_bytes Improves
max_by_bytes-IsPick [] = tt
max_by_bytes-IsPick ((page, s) ∷ m) = elim (Bool-cases (page == txn_meta_page_id)) [
  | inl meta ↦
      rw meta (skip_meta page s m (max_by_bytes m none) (is_meta page meta) (max_by_bytes-IsPick m))
  | inr other ↦
      let (q, c, e, n, le, place, most) =
        max_by_bytes-Improves m page s.bytes (not_meta page other) in
      rw (other, e) (n, place, (inr le, most))
]

-- What the answer says of the log: no page, because no threshold is reached or there are only
-- transaction markers; or a page.
abbrev pub IsCandidate : WalState → ℕ → ℕ → Option ℕ → Type 0
IsCandidate s records bytes none =
    ((s.total_records < records) × (s.total_bytes < bytes)) ⊎ IsMeta s.leaf_counts
IsCandidate s records bytes (some page) =
    ((records ≤ s.total_records) ⊎ (bytes ≤ s.total_bytes))
    × (page ≢ txn_meta_page_id)
    × ((most : ℕ) × Holds page most s.leaf_counts × IsMost most s.leaf_counts)

picked :
    (s : WalState) (records bytes : ℕ) (o : Option (ℕ × ℕ))
    → (records ≤ s.total_records) ⊎ (bytes ≤ s.total_bytes)
    → IsPick s.leaf_counts o
    → IsCandidate s records bytes (elim o [ none ↦ none | some (page, b) ↦ some page ])
picked s records bytes none reached h = inr h
picked s records bytes (some (page, b)) reached (n, place, most) = (reached, n, (b, place, most))

reached :
    (s : WalState) (records bytes : ℕ)
    → (ltb s.total_records records && ltb s.total_bytes bytes) ≡ false
    → (records ≤ s.total_records) ⊎ (bytes ≤ s.total_bytes)
reached s records bytes h = grind arith

-- `global_checkpoint_candidate` gives no page only if neither threshold is reached or all entries
-- are of the transaction markers. A page that it gives is not that of the markers, a threshold is
-- reached, and no page but that of the markers has more bytes in the log.
pub global_checkpoint_candidate-IsCandidate :
    (s : WalState) (records bytes : ℕ)
    → IsCandidate s records bytes (global_checkpoint_candidate s records bytes)
unfolding global_checkpoint_candidate
global_checkpoint_candidate-IsCandidate s records bytes =
    elim (Bool-cases (ltb s.total_records records && ltb s.total_bytes bytes)) [
      | inl low ↦ rw low (inl (ground arith))
      | inr high ↦ rw high (
          picked s records bytes (max_by_bytes s.leaf_counts none) (reached s records bytes high)
            (max_by_bytes-IsPick s.leaf_counts))
    ]
