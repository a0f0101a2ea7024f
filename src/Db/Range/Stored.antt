-- ===== src/Db/Range/Stored.antt =====
-- `range_scan` gives what the pages store.
use quickstep.Base.{
  ℕ, zero, suc, ◌+◌, ◌≤◌, ◌<◌, ◌≡◌, ◌≢◌, ◌↔◌, inl, inr, refl, ap, sym, ◌∙◌, subst, arith,
}
use quickstep.Base.{List, [], ◌∷◌, ◌++◌, some, true, false, Bool-cases, true≢false, ◌==◌, ==_iff}
use Prim.Native.Nat.{Ordering}
use Ordering.{lt}
use quickstep.Base.Order.{compare_bytes, compare_bytes_flip_lt}
use quickstep.MapTable.Entry.{get_ref, state, pending_write}
use quickstep.MapTable.Loops.Sound.{uncontended}
use quickstep.Db.{Db}
use quickstep.Db.Recovery.{Entries, collect_user_records}
use quickstep.Db.Range.{in_range, filter_range, records_between, page_of, alone, scan_pages}
use quickstep.Db.Range.{sort_by_key, range_scan}
use quickstep.Db.Range.Sorted.{IsIn, IsAscending, IsIn-sort, IsIn-append, sort_by_key-IsAscending}

-- From the lower bound on, and below the upper bound.
abbrev pub IsBetween : List ℕ → List ℕ → List ℕ → Type 0
IsBetween lower upper key = (compare_bytes key lower ≢ lt) × (compare_bytes key upper ≡ lt)

-- Some page of the table has the entry, and its key is between the bounds.
abbrev pub IsStored : Db → List ℕ → List ℕ → List ℕ × List ℕ → Type 0
IsStored db lower upper e =
    (page : ℕ) × (page < db.capacity)
    × (db.words page ≢ 0)
    × IsIn e (collect_user_records (page_of db (get_ref (db.words page))))
    × IsBetween lower upper e.0

-- No page has a lock, and no writer waits.
abbrev pub IsIdle : Db → Type 0
IsIdle db = (page : ℕ) → (state (db.words page) ≡ 0) × (pending_write (db.words page) ≡ false)

in_range-IsBetween :
    (lower upper : List ℕ) (e : List ℕ × List ℕ)
    → ((in_range lower upper e ≡ true) → IsBetween lower upper e.0)
      × (IsBetween lower upper e.0 → in_range lower upper e ≡ true)
unfolding in_range
in_range-IsBetween lower upper e =
    (λ h. (ground (arith, h), ground (arith, h)), λ h. ground (arith, h))

IsIn-filter :
    (lower upper : List ℕ) (a : List ℕ × List ℕ) (es : Entries)
    → IsIn a (filter_range lower upper es) ↔ (IsIn a es × (in_range lower upper a ≡ true))
unfolding filter_range
IsIn-filter lower upper a [] = (λ h. absurd h, λ h. absurd h.0)
IsIn-filter lower upper a (e ∷ es) = elim (Bool-cases (in_range lower upper e)) [
  | inl inside ↦
      rw (inside, filter_range)
        (
          λ h. elim h [
            | inl here ↦ (inl here, ap (in_range lower upper) here ∙ inside)
            | inr there ↦
                let (old, kept) = (IsIn-filter lower upper a es).0 there in (inr old, kept)
          ],
          λ h. elim h.0 [
            | inl here ↦ inl here
            | inr there ↦ inr ((IsIn-filter lower upper a es).1 (there, h.1))
          ],
        )
  | inr outside ↦
      rw (outside, filter_range)
        (
          λ h. let (old, kept) = (IsIn-filter lower upper a es).0 h in (inr old, kept),
          λ h. elim h.0 [
            | inl here ↦ absurd (true≢false (sym h.1 ∙ ap (in_range lower upper) here ∙ outside))
            | inr there ↦ (IsIn-filter lower upper a es).1 (there, h.1)
          ],
        )
]

-- One of the `left` pages from `slot` on has the entry.
abbrev IsFrom : Db → List ℕ → List ℕ → ℕ → ℕ → List ℕ × List ℕ → Type 0
IsFrom db lower upper slot left e =
    (page : ℕ) × (slot ≤ page)
    × (page < slot + left)
    × (db.words page ≢ 0)
    × IsIn e (collect_user_records (page_of db (get_ref (db.words page))))
    × IsBetween lower upper e.0

-- What a page adds to what the pages behind it have.
IsFrom-step :
    (db : Db) (lower upper : List ℕ) (slot left : ℕ) (e : List ℕ × List ℕ) (es : Entries)
    → db.words slot ≢ 0
    → (IsIn e es ↔ IsFrom db lower upper (slot + 1) left e)
    → IsIn e (records_between (page_of db (get_ref (db.words slot))) lower upper ++ es)
      ↔ IsFrom db lower upper slot (suc left) e
unfolding records_between
IsFrom-step db lower upper slot left e es mapped (from, to) =
    let node = page_of db (get_ref (db.words slot)) in
    let own = records_between node lower upper in
    let split = IsIn-append e own es in
    let kept = IsIn-filter lower upper e (collect_user_records node) in
    let between = in_range-IsBetween lower upper e in
    (
      λ h. elim (split.0 h) [
        | inl here ↦
            (slot, omega arith, omega arith, mapped, (kept.0 here).0, between.0 (kept.0 here).1)
        | inr behind ↦
            let (page, low, high, there, stored, inside) = from behind in
            (page, omega (arith, low), omega (arith, high), there, stored, inside)
      ],
      λ h.
          let (page, low, high, there, stored, inside) = h in
          elim (Bool-cases (page == slot)) [
            | inl same ↦
                let at : page ≡ slot = (==_iff page slot).0 same in
                split.1 (
                  inl (
                    kept.1 (
                      subst (λ p. IsIn e (collect_user_records (page_of db (get_ref (db.words p)))))
                          at stored,
                      between.1 inside,
                    )))
            | inr other ↦ split.1 (
                inr (
                  to
                    (page, ground (arith, other, low), omega (arith, high), there, stored, inside)))
          ],
    )

skip_page :
    (db : Db) (lower upper : List ℕ) (slot left : ℕ) (e : List ℕ × List ℕ)
    → db.words slot ≡ 0
    → IsFrom db lower upper (slot + 1) left e ↔ IsFrom db lower upper slot (suc left) e
skip_page db lower upper slot left e free = (
  λ h.
      let (page, low, high, there, stored, inside) = h in
      (page, omega (arith, low), omega (arith, high), there, stored, inside),
  λ h.
      let (page, low, high, there, stored, inside) = h in
      elim (Bool-cases (page == slot)) [
        | inl same ↦ absurd (there (ap db.words ((==_iff page slot).0 same) ∙ free))
        | inr other ↦ (page, ground (arith, other, low), omega (arith, high), there, stored, inside)
      ],
)

scan_pages-IsFrom :
    (left slot : ℕ) (lower upper : List ℕ) (db : Db)
    → IsIdle db
    → (es : Entries) × (scan_pages left slot lower upper db ≡ some es)
      × ((e : List ℕ × List ℕ) → IsIn e es ↔ IsFrom db lower upper slot left e)
unfolding scan_pages
scan_pages-IsFrom zero slot lower upper db idle =
    ([], refl, λ e. (λ h. absurd h, λ h. absurd (omega (arith, h.1, h.2))))
scan_pages-IsFrom (suc left) slot lower upper db idle =
    let (es, scans, stored) = scan_pages-IsFrom left (slot + 1) lower upper db idle in
    elim (Bool-cases (db.words slot == 0)) [
      | inl free ↦ (
        es,
        rw (free, scan_pages) scans,
        λ e.
            let skip = skip_page db lower upper slot left e ((==_iff (db.words slot) 0).0 free) in
            (λ h. skip.0 ((stored e).0 h), λ h. (stored e).1 (skip.1 h)),
      )
      | inr mapped ↦
          let taken =
            (uncontended (alone (db.words slot)) (λ i. refl) refl (idle slot).0 (idle slot).1).0 in
          (
            records_between (page_of db (get_ref (db.words slot))) lower upper ++ es,
            rw (mapped, scan_pages) (rw taken (rw scans refl)),
            λ e.
                IsFrom-step db lower upper slot left e es
                  (λ h. true≢false (sym ((==_iff (db.words slot) 0).1 h) ∙ mapped)) (stored e),
          )
    ]

-- Scanning between two bounds, the lower one below the upper one, while no page is locked and no
-- writer waits: the scan succeeds, its entries are in the order of their keys, and they are the
-- entries of the pages of the table whose keys are between the bounds.
pub range_scan-IsStored :
    (lower upper : List ℕ) (db : Db)
    → compare_bytes lower upper ≡ lt
    → IsIdle db
    → (es : Entries) × (range_scan lower upper db ≡ some es)
      × IsAscending es
      × ((e : List ℕ × List ℕ) → IsIn e es ↔ IsStored db lower upper e)
unfolding range_scan
range_scan-IsStored lower upper db below idle =
    let (es, scans, stored) = scan_pages-IsFrom db.capacity 0 lower upper db idle in
    (
      sort_by_key es,
      rw (compare_bytes_flip_lt lower upper below, range_scan) (rw scans refl),
      sort_by_key-IsAscending es,
      λ e. (
        λ h.
            let (page, low, high, there, found, inside) = (stored e).0 ((IsIn-sort e es).0 h) in
            (page, omega (arith, high), there, found, inside),
        λ h.
            let (page, high, there, found, inside) = h in
            (IsIn-sort e es).1
              ((stored e).1 (page, omega arith, omega (arith, high), there, found, inside)),
      ),
    )
