-- ===== src/Wal/Manager/Grouped.antt =====
-- `records_grouped`: the records of the log by page, each group in the order of the log.
use quickstep.Base.{ℕ, ◌<◌, ◌≤◌, ◌≡◌, refl, arith, List, [], ◌∷◌, ◌++◌, append-nil, append_assoc}
use quickstep.Base.{◌==◌, ltb, if◌then◌else◌}
use quickstep.Wal.Record.{WalRecord}
use quickstep.Wal.Manager.State.{WalState}

-- `BTreeMap<u64, Vec<WalRecord>>`, as a list in the order of its keys.
abbrev pub Groups : Type 0
Groups = List (ℕ × List WalRecord)

-- `entry(page).or_default().push(record)`
unfoldable pub push_record : ℕ → WalRecord → Groups → Groups
push_record page r [] = (page, r ∷ []) ∷ []
push_record page r ((p, rs) ∷ m) =
    if page == p
    then (p, rs ++ (r ∷ [])) ∷ m
    else if ltb page p
    then (page, r ∷ []) ∷ (p, rs) ∷ m
    else (p, rs) ∷ push_record page r m

unfoldable pub group_records : List WalRecord → Groups → Groups
group_records [] grouped = grouped
group_records (r ∷ rs) grouped = group_records rs (push_record r.page_id r grouped)

unfoldable pub records_grouped : WalState → Groups
records_grouped s = group_records s.records []

abbrev pub IsAbove : ℕ → Groups → Type 0
IsAbove p [] = Unit
IsAbove p ((q, rs) ∷ m) = (p < q) × IsAbove p m

abbrev pub IsSorted : Groups → Type 0
IsSorted [] = Unit
IsSorted ((p, rs) ∷ m) = IsAbove p m × IsSorted m

abbrev pub group_of : ℕ → Groups → List WalRecord
group_of page [] = []
group_of page ((p, rs) ∷ m) = if p == page then rs else group_of page m

abbrev pub of_page : ℕ → List WalRecord → List WalRecord
of_page page [] = []
of_page page (r ∷ rs) = if r.page_id == page then r ∷ of_page page rs else of_page page rs

IsAbove-weaken : (p q : ℕ) (m : Groups) → p ≤ q → IsAbove q m → IsAbove p m
IsAbove-weaken p q [] le h = tt
IsAbove-weaken p q ((k, rs) ∷ m) le (h, hs) = (omega arith, IsAbove-weaken p q m le hs)

push_record-IsAbove :
    (p page : ℕ) (r : WalRecord) (m : Groups)
    → p < page
    → IsAbove p m
    → IsAbove p (push_record page r m)
unfolding push_record
push_record-IsAbove p page r [] lt h = (lt, tt)
push_record-IsAbove p page r ((q, rs) ∷ m) lt (h, hs) =
    ground (arith, push_record-IsAbove p page r m lt hs)

push_record-IsSorted :
    (page : ℕ) (r : WalRecord) (m : Groups) → IsSorted m → IsSorted (push_record page r m)
unfolding push_record
push_record-IsSorted page r [] h = (tt, tt)
push_record-IsSorted page r ((q, rs) ∷ m) (h, hs) = ground (
  arith,
  IsAbove-weaken page q m,
  push_record-IsAbove q page r m,
  push_record-IsSorted page r m hs,
)

group_of_above : (page p : ℕ) (m : Groups) → page ≤ p → IsAbove p m → group_of page m ≡ []
group_of_above page p [] le h = refl
group_of_above page p ((q, rs) ∷ m) le (h, hs) = ground (arith, group_of_above page p m le hs)

group_of-push_record :
    (page q : ℕ) (r : WalRecord) (m : Groups)
    → IsSorted m
    → group_of page (push_record q r m)
      ≡ (if q == page then group_of page m ++ (r ∷ []) else group_of page m)
unfolding push_record
group_of-push_record page q r [] h = ground arith
group_of-push_record page q r ((p, rs) ∷ m) (h, hs) =
    ground (arith, group_of_above page p m, group_of-push_record page q r m hs)

group_records-of_page :
    (rs : List WalRecord) (m : Groups)
    → IsSorted m
    → IsSorted (group_records rs m)
      × ((page : ℕ) → group_of page (group_records rs m) ≡ group_of page m ++ of_page page rs)
unfolding group_records
group_records-of_page [] m h = (h, λ page. ground (arith, append-nil (group_of page m)))
group_records-of_page (r ∷ rs) m h =
    let rest =
      group_records-of_page rs (push_record r.page_id r m) (push_record-IsSorted r.page_id r m h) in
    (
      rest.0,
      λ page. ground (
        arith,
        rest.1 page,
        group_of-push_record page r.page_id r m h,
        append_assoc (group_of page m) (r ∷ []) (of_page page rs),
      ),
    )

-- `records_grouped` lists the pages in ascending order, and the group of each page is the records of
-- that page in the order of the log; a page that is not listed has none.
pub records_grouped-of_page :
    (s : WalState)
    → IsSorted (records_grouped s)
      × ((page : ℕ) → group_of page (records_grouped s) ≡ of_page page s.records)
unfolding records_grouped
records_grouped-of_page s = group_records-of_page s.records [] tt
