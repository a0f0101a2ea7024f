-- ===== src/Wal/Manager/Rewrite.antt =====
-- The loop of `rewrite_records`: it writes the runs of records of one page as groups.
use quickstep.Base.{ℕ, zero, suc, ◌+◌, ◌^◌, ◌≤◌, ◌<◌, ◌≡◌, refl, ap, sym, ◌∙◌, arith}
use quickstep.Base.{List, [], ◌∷◌, ◌++◌, some, inl, inr, Bool-cases, ==_iff}
use quickstep.Base.{
  if◌then◌else◌, ◌==◌, length, All, All-split, length-append, append_assoc, append-nil,
}
use quickstep.Base.{cons≢nil}
use quickstep.Base.Words.{saturating_add}
use quickstep.Wal.Record.{WalRecord}
use quickstep.Wal.Codec.{write_group}
use quickstep.Wal.Codec.Payload.{IsFitting}
use quickstep.Wal.Reader.Groups.{Group, IsOf, IsGroup, encode, encode_group, records_of}
use quickstep.Wal.Reader.Groups.{write_group-encode_group}
use quickstep.Wal.Manager.State.{LeafCounts, split_run, rewrite_loop, sum_bytes, update}
use quickstep.Wal.Manager.State.{add_bytes, add_count}
use quickstep.Wal.Manager.Counts.{count_at, count_of, count_at-add_both, count_of-append}

IsPage : ℕ → WalRecord → Type 0
IsPage page r = r.page_id ≡ page

-- A run is at the front, and of its page.
split_run-append :
    (page : ℕ) (rs : List WalRecord)
    → ((split_run page rs).0 ++ (split_run page rs).1 ≡ rs)
      × All (IsPage page) (split_run page rs).0
unfolding split_run IsPage
split_run-append page [] = (refl, tt)
split_run-append page (r ∷ rs) =
    let rest = split_run-append page rs in
    elim (Bool-cases (r.page_id == page)) [
      | inl same ↦ rw same (ap (λ t. r ∷ t) rest.0, ((==_iff r.page_id page).0 same, rest.1))
      | inr other ↦ rw other (refl, tt)
    ]

-- The groups that the loop writes.
unfoldable pub runs : ℕ → List WalRecord → List Group
runs zero rs = []
runs (suc fuel) [] = []
runs (suc fuel) (r ∷ rs) =
    let (run, others) = split_run r.page_id rs in (r.page_id, r ∷ run) ∷ runs fuel others

-- What the loop adds to the map of pages.
unfoldable pub note_groups : List Group → LeafCounts → LeafCounts
note_groups [] m = m
note_groups ((page, rs) ∷ gs) m =
    note_groups gs
      (update page (λ s. add_bytes (length (encode_group (page, rs))) (add_count (length rs) s)) m)

with_page :
    (page : ℕ) (rs : List WalRecord) → All IsFitting rs → All (IsPage page) rs → All (IsOf page) rs
unfolding IsPage
with_page page [] h p = tt
with_page page (r ∷ rs) (h, hs) (p, ps) = ((p, h), with_page page rs hs ps)

run-IsGroup :
    (r : WalRecord) (rs : List WalRecord)
    → All IsFitting (r ∷ rs)
    → length (r ∷ rs) < 2 ^ 32
    → IsGroup (r.page_id, r ∷ (split_run r.page_id rs).0)
run-IsGroup r rs (h, hs) small =
    let parts = split_run-append r.page_id rs in
    let run = (split_run r.page_id rs).0 in
    let others = (split_run r.page_id rs).1 in
    let fits : All IsFitting (run ++ others) = rw parts.0 hs in
    record {
      filled = cons≢nil;
      small = omega (arith, ap length parts.0, length-append run others);
      page = h.page;
      fits = ((refl, h), with_page r.page_id run (All-split IsFitting run others fits).0 parts.1);
    }

count_of-page :
    (page q : ℕ) (rs : List WalRecord)
    → All (IsOf q) rs
    → count_of page rs ≡ (if q == page then length rs else 0)
count_of-page page q [] h = ground arith
count_of-page page q (r ∷ rs) (h, hs) = ground (arith, h.0, count_of-page page q rs hs)

rewrite_loop_step :
    (fuel : ℕ) (r : WalRecord) (rs : List WalRecord) (file : List ℕ) (stats : LeafCounts)
    (bytes : List ℕ) (written : ℕ)
    → write_group r.page_id (r ∷ (split_run r.page_id rs).0) ≡ some (bytes, written)
    → rewrite_loop (suc fuel) (r ∷ rs) file stats
      ≡ rewrite_loop fuel (split_run r.page_id rs).1 (file ++ bytes) (
          update r.page_id
            (λ s. add_bytes written (add_count (length (r ∷ (split_run r.page_id rs).0)) s))
            stats)
unfolding rewrite_loop
rewrite_loop_step fuel r rs file stats bytes written h = rw (h, rewrite_loop) refl

-- With as many rounds as there are records, the loop writes the runs of the records as groups.
pub rewrite_loop-runs :
    (fuel : ℕ) (rs : List WalRecord) (file : List ℕ) (stats : LeafCounts)
    → length rs ≤ fuel
    → All IsFitting rs
    → length rs < 2 ^ 32
    → (rewrite_loop fuel rs file stats
        ≡ some (file ++ encode (runs fuel rs), note_groups (runs fuel rs) stats))
      × All IsGroup (runs fuel rs)
      × (records_of (runs fuel rs) ≡ rs)
unfolding rewrite_loop runs note_groups
rewrite_loop-runs zero [] file stats enough h small = (rw append-nil refl, tt, refl)
rewrite_loop-runs zero (r ∷ rs) file stats enough h small = absurd (omega arith)
rewrite_loop-runs (suc fuel) [] file stats enough h small = (rw append-nil refl, tt, refl)
rewrite_loop-runs (suc fuel) (r ∷ rs) file stats enough h small =
    let parts = split_run-append r.page_id rs in
    let run = (split_run r.page_id rs).0 in
    let others = (split_run r.page_id rs).1 in
    let group : Group = (r.page_id, r ∷ run) in
    let whole = run-IsGroup r rs h small in
    let size : length rs ≡ length run + length others =
      sym (ap length parts.0) ∙ length-append run others in
    let fits : All IsFitting (run ++ others) = rw parts.0 h.1 in
    let rest =
      rewrite_loop-runs fuel others (file ++ encode_group group) (note_groups (group ∷ []) stats)
        (omega (arith, size)) (All-split IsFitting run others fits).1 (omega (arith, size)) in
    (
      rewrite_loop_step fuel r rs file stats _ _ (write_group-encode_group group whole)
          ∙ (rest.0
              ∙ ap (λ t. some (t, note_groups (runs fuel others) (note_groups (group ∷ []) stats)))
                  (append_assoc file (encode_group group) _)),
      (whole, rest.1),
      ap (λ t. r ∷ t) (ap (λ t. run ++ t) rest.2 ∙ parts.0),
    )

-- The counters after the loop.
pub count_at-note_groups :
    (page : ℕ) (gs : List Group) (m : LeafCounts)
    → All IsGroup gs
    → count_at page (note_groups gs m) ≡ count_at page m + count_of page (records_of gs)
unfolding note_groups
count_at-note_groups page [] m h = omega arith
count_at-note_groups page ((q, rs) ∷ gs) m (h, hs) = omega (
  arith,
  count_at-note_groups page gs (note_groups ((q, rs) ∷ []) m) hs,
  count_at-add_both page q (length rs) (length (encode_group (q, rs))) m,
  count_of-append page rs (records_of gs),
  count_of-page page q rs h.fits,
)

-- The byte counts after the loop, added up.
abbrev pub sum_of : LeafCounts → ℕ
sum_of [] = 0
sum_of ((p, s) ∷ m) = s.bytes + sum_of m

sum_of-update :
    (page n b : ℕ) (m : LeafCounts)
    → sum_of m + b < 2 ^ 64
    → sum_of (update page (λ s. add_bytes b (add_count n s)) m) ≡ sum_of m + b
unfolding update
sum_of-update page n b [] h = ground arith
sum_of-update page n b ((p, s) ∷ m) h = ground (arith, sum_of-update page n b m)

sum_of-note_groups :
    (gs : List Group) (m : LeafCounts)
    → sum_of m + length (encode gs) < 2 ^ 64
    → sum_of (note_groups gs m) ≡ sum_of m + length (encode gs)
unfolding note_groups
sum_of-note_groups [] m h = omega arith
sum_of-note_groups ((q, rs) ∷ gs) m h =
    let size = length-append (encode_group (q, rs)) (encode gs) in
    let head =
      sum_of-update q (length rs) (length (encode_group (q, rs))) m (omega (arith, size)) in
    omega (
      arith,
      size,
      head,
      sum_of-note_groups gs (note_groups ((q, rs) ∷ []) m) (omega (arith, size, head)),
    )

sum_bytes-sum_of :
    (acc : ℕ) (m : LeafCounts) → acc + sum_of m < 2 ^ 64 → sum_bytes acc m ≡ acc + sum_of m
unfolding sum_bytes
sum_bytes-sum_of acc [] h = omega arith
sum_bytes-sum_of acc ((p, s) ∷ m) h =
    ground (arith, sum_bytes-sum_of (saturating_add acc s.bytes) m)

pub sum_bytes-note_groups :
    (gs : List Group)
    → length (encode gs) < 2 ^ 64
    → sum_bytes 0 (note_groups gs []) ≡ length (encode gs)
sum_bytes-note_groups gs h =
    let total = sum_of-note_groups gs [] (omega arith) in
    omega (arith, total, sum_bytes-sum_of 0 (note_groups gs []) (omega (arith, total)))
