-- ===== src/Db/Range/Sorted.antt =====
-- The stable sort by keys: an ascending list of the same entries.
use quickstep.Base.{ℕ, ◌≡◌, ◌≢◌, ◌⊎◌, ◌↔◌, inl, inr, subst, arith}
use quickstep.Base.{List, [], ◌∷◌, ◌++◌, All}
use Prim.Native.Nat.{Ordering}
use Ordering.{lt, gt}
use quickstep.Base.Order.{compare_bytes, compare_bytes-eq, compare_bytes_trans}
use quickstep.Base.Order.{compare_bytes_flip, compare_bytes_flip_lt}
use quickstep.Node.Search.Loop.{Ordering-cases}
use quickstep.Db.Recovery.{Entries}
use quickstep.Db.Range.{insert_by_key, sort_by_key}

abbrev pub IsIn : List ℕ × List ℕ → Entries → Type 0
IsIn e [] = ⊥
IsIn e (x ∷ xs) = (e ≡ x) ⊎ IsIn e xs

-- No key is above one that stands behind it.
abbrev pub IsAscending : Entries → Type 0
IsAscending [] = Unit
IsAscending (x ∷ xs) = All (λ y. compare_bytes x.0 y.0 ≢ gt) xs × IsAscending xs

le_trans :
    (a b c : List ℕ) → compare_bytes a b ≢ gt → compare_bytes b c ≢ gt → compare_bytes a c ≢ gt
le_trans a b c h k above = elim (Ordering-cases (compare_bytes a b)) [
  | inl less ↦ k (compare_bytes_trans b a c (compare_bytes_flip_lt a b less) above)
  | inr (inl same) ↦ k (subst (λ x. compare_bytes x c ≡ gt) (compare_bytes-eq a b same) above)
  | inr (inr more) ↦ h more
]

All_above :
    (a b : List ℕ) (xs : Entries)
    → compare_bytes a b ≢ gt
    → All (λ y. compare_bytes b y.0 ≢ gt) xs
    → All (λ y. compare_bytes a y.0 ≢ gt) xs
All_above a b [] h k = tt
All_above a b (x ∷ xs) h (k, ks) = (le_trans a b x.0 h k, All_above a b xs h ks)

insert_above :
    (a : List ℕ) (e : List ℕ × List ℕ) (xs : Entries)
    → compare_bytes a e.0 ≢ gt
    → All (λ y. compare_bytes a y.0 ≢ gt) xs
    → All (λ y. compare_bytes a y.0 ≢ gt) (insert_by_key e xs)
unfolding insert_by_key
insert_above a e [] h tt = (h, tt)
insert_above a e (x ∷ xs) h (k, ks) = elim (Ordering-cases (compare_bytes e.0 x.0)) [
  | inl less ↦ rw (less, insert_by_key) (h, (k, ks))
  | inr (inl same) ↦ rw (same, insert_by_key) (h, (k, ks))
  | inr (inr more) ↦ rw (more, insert_by_key) (k, insert_above a e xs h ks)
]

at_most_gt : (o : Ordering) → o ≡ lt → o ≢ gt
at_most_gt o h k = ground (arith, h, k)

insert_by_key-IsAscending :
    (e : List ℕ × List ℕ) (xs : Entries) → IsAscending xs → IsAscending (insert_by_key e xs)
unfolding insert_by_key
insert_by_key-IsAscending e [] h = (tt, tt)
insert_by_key-IsAscending e (x ∷ xs) (k, h) = elim (Ordering-cases (compare_bytes e.0 x.0)) [
  | inl less ↦
      let le = at_most_gt _ less in
      rw (less, insert_by_key) ((le, All_above e.0 x.0 xs le k), (k, h))
  | inr (inl same) ↦
      let le : compare_bytes e.0 x.0 ≢ gt = λ more. ground (arith, same, more) in
      rw (same, insert_by_key) ((le, All_above e.0 x.0 xs le k), (k, h))
  | inr (inr more) ↦
      rw (more, insert_by_key)
        (
          insert_above x.0 e xs (at_most_gt _ (compare_bytes_flip e.0 x.0 more)) k,
          insert_by_key-IsAscending e xs h,
        )
]

pub sort_by_key-IsAscending : (es : Entries) → IsAscending (sort_by_key es)
unfolding sort_by_key
sort_by_key-IsAscending [] = tt
sort_by_key-IsAscending (e ∷ es) =
    insert_by_key-IsAscending e (sort_by_key es) (sort_by_key-IsAscending es)

IsIn-insert :
    (a e : List ℕ × List ℕ) (xs : Entries)
    → (IsIn a (insert_by_key e xs) → (a ≡ e) ⊎ IsIn a xs)
      × ((a ≡ e) ⊎ IsIn a xs → IsIn a (insert_by_key e xs))
unfolding insert_by_key
IsIn-insert a e [] = (λ h. h, λ h. h)
IsIn-insert a e (x ∷ xs) = elim (Ordering-cases (compare_bytes e.0 x.0)) [
  | inl less ↦ rw (less, insert_by_key) (λ h. h, λ h. h)
  | inr (inl same) ↦ rw (same, insert_by_key) (λ h. h, λ h. h)
  | inr (inr more) ↦
      let (from, to) = IsIn-insert a e xs in
      rw (more, insert_by_key)
        (
          λ h. elim h [
            | inl here ↦ inr (inl here)
            | inr there ↦ elim (from there) [ inl new ↦ inl new | inr old ↦ inr (inr old) ]
          ],
          λ h. elim h [
            | inl new ↦ inr (to (inl new))
            | inr old ↦ elim old [ inl here ↦ inl here | inr there ↦ inr (to (inr there)) ]
          ],
        )
]

pub IsIn-sort : (a : List ℕ × List ℕ) (es : Entries) → IsIn a (sort_by_key es) ↔ IsIn a es
unfolding sort_by_key
IsIn-sort a [] = (λ h. h, λ h. h)
IsIn-sort a (e ∷ es) =
    let (from, to) = IsIn-insert a e (sort_by_key es) in
    (
      λ h. elim (from h) [ inl new ↦ inl new | inr old ↦ inr ((IsIn-sort a es).0 old) ],
      λ h. to (elim h [ inl new ↦ inl new | inr old ↦ inr ((IsIn-sort a es).1 old) ]),
    )

pub IsIn-append :
    (a : List ℕ × List ℕ) (xs ys : Entries) → IsIn a (xs ++ ys) ↔ (IsIn a xs ⊎ IsIn a ys)
IsIn-append a [] ys = (λ h. inr h, λ h. elim h [ inl n ↦ absurd n | inr y ↦ y ])
IsIn-append a (x ∷ xs) ys = (
  λ h. elim h [
    | inl here ↦ inl (inl here)
    | inr there ↦ elim ((IsIn-append a xs ys).0 there) [ inl l ↦ inl (inr l) | inr r ↦ inr r ]
  ],
  λ h. elim h [
    | inl l ↦ elim l [ inl here ↦ inl here | inr there ↦ inr ((IsIn-append a xs ys).1 (inl there)) ]
    | inr r ↦ inr ((IsIn-append a xs ys).1 (inr r))
  ],
)
