-- ===== src/Wal/Manager/Counts.antt =====
-- The record counts that the state keeps for each page.
use quickstep.Base.{ℕ, ◌+◌, ◌≡◌, refl, arith, List, [], ◌∷◌, ◌++◌, none, some, ◌==◌, if◌then◌else◌}
use quickstep.Wal.Record.{WalRecord}
use quickstep.Wal.Manager.State.{LeafCounts, lookup, update, add_count, add_bytes}
use quickstep.Wal.Manager.State.{set_bytes, count_records, set_page_bytes}

abbrev pub count_at : ℕ → LeafCounts → ℕ
count_at page m = elim (lookup page m) [ none ↦ 0 | some s ↦ s.count ]

-- How many of the records are of the page.
abbrev pub count_of : ℕ → List WalRecord → ℕ
count_of page [] = 0
count_of page (r ∷ rs) = (if r.page_id == page then 1 else 0) + count_of page rs

pub count_at-add_count :
    (page q n : ℕ) (m : LeafCounts)
    → count_at page (update q (add_count n) m) ≡ count_at page m + (if q == page then n else 0)
unfolding lookup update
count_at-add_count page q n [] = ground arith
count_at-add_count page q n ((p, s) ∷ m) = ground (arith, count_at-add_count page q n m)

pub count_at-add_both :
    (page q n b : ℕ) (m : LeafCounts)
    → count_at page (update q (λ s. add_bytes b (add_count n s)) m)
      ≡ count_at page m + (if q == page then n else 0)
unfolding lookup update
count_at-add_both page q n b [] = ground arith
count_at-add_both page q n b ((p, s) ∷ m) = ground (arith, count_at-add_both page q n b m)

pub count_at-add_bytes :
    (page q n : ℕ) (m : LeafCounts) → count_at page (update q (add_bytes n) m) ≡ count_at page m
unfolding lookup update
count_at-add_bytes page q n [] = ground arith
count_at-add_bytes page q n ((p, s) ∷ m) = ground (arith, count_at-add_bytes page q n m)

pub count_at-set_bytes :
    (page q n : ℕ) (m : LeafCounts) → count_at page (update q (set_bytes n) m) ≡ count_at page m
unfolding lookup update
count_at-set_bytes page q n [] = ground arith
count_at-set_bytes page q n ((p, s) ∷ m) = ground (arith, count_at-set_bytes page q n m)

pub count_at-count_records :
    (page : ℕ) (rs : List WalRecord) (m : LeafCounts)
    → count_at page (count_records rs m) ≡ count_at page m + count_of page rs
unfolding count_records
count_at-count_records page [] m = omega arith
count_at-count_records page (r ∷ rs) m = omega (
  arith,
  count_at-count_records page rs (update r.page_id (add_count 1) m),
  count_at-add_count page r.page_id 1 m,
)

pub count_at-set_page_bytes :
    (page : ℕ) (l : List (ℕ × ℕ)) (m : LeafCounts)
    → count_at page (set_page_bytes l m) ≡ count_at page m
unfolding set_page_bytes
count_at-set_page_bytes page [] m = refl
count_at-set_page_bytes page ((q, b) ∷ l) m = omega (
  arith,
  count_at-set_page_bytes page l (update q (set_bytes b) m),
  count_at-set_bytes page q b m,
)

pub count_of-append :
    (page : ℕ) (xs ys : List WalRecord)
    → count_of page (xs ++ ys) ≡ count_of page xs + count_of page ys
count_of-append page [] ys = omega arith
count_of-append page (x ∷ xs) ys = omega (arith, count_of-append page xs ys)
