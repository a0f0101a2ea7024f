-- ===== src/Db/Recovery/Entries.antt =====
-- Looking up in the map of the replay.
use quickstep.Base.{ℕ, ◌≡◌, refl, ap, ◌∙◌, arith}
use quickstep.Base.{List, [], ◌∷◌, ◌++◌, Option, none, some}
use Prim.Native.Nat.{Ordering}
use Ordering.{eq}
use quickstep.Base.Order.{compare_bytes, compare_bytes-eq}
use quickstep.Node.Put.Replay.{Values, map_put, map_put_all, IsFresh, with_prefix}
use quickstep.Db.Recovery.{Entries, insert, remove}

abbrev pub find : List ℕ → Entries → Option (List ℕ)
find key [] = none
find key ((k, v) ∷ es) = elim (compare_bytes key k) [ eq ↦ some v | _ ↦ find key es ]

abbrev pub or_else : Option (List ℕ) → Option (List ℕ) → Option (List ℕ)
or_else (some v) other = some v
or_else none other = other

-- The map without a key.
abbrev pub map_remove : List ℕ → Values → Values
map_remove key f t = elim (compare_bytes t key) [ eq ↦ none | _ ↦ f t ]

right_eq : (a b c : List ℕ) → compare_bytes a b ≡ eq → compare_bytes c a ≡ compare_bytes c b
right_eq a b c h = ap (compare_bytes c) (compare_bytes-eq a b h)

left_eq : (a b c : List ℕ) → compare_bytes a b ≡ eq → compare_bytes a c ≡ compare_bytes b c
left_eq a b c h = ap (λ x. compare_bytes x c) (compare_bytes-eq a b h)

pub find-insert :
    (key value t : List ℕ) (es : Entries)
    → find t (insert key value es) ≡ map_put key value (λ x. find x es) t
unfolding insert map_put
find-insert key value t [] = refl
find-insert key value t ((k, v) ∷ es) =
    ground (arith, right_eq key k t, left_eq t key k, find-insert key value t es)

pub find-remove :
    (key t : List ℕ) (es : Entries) → find t (remove key es) ≡ map_remove key (λ x. find x es) t
unfolding remove
find-remove key t [] = ground arith
find-remove key t ((k, v) ∷ es) =
    ground (arith, right_eq key k t, left_eq t key k, find-remove key t es)

-- Keys that are new in turn: the first entry of a key is the last one.
map_put_all_of_some :
    (es : Entries) (f : Values) (t v : List ℕ)
    → IsFresh es f
    → f t ≡ some v
    → map_put_all es f t ≡ some v
unfolding map_put_all map_put
map_put_all_of_some [] f t v fresh here = here
map_put_all_of_some ((k, x) ∷ es) f t v (bytes, new, fresh) here =
    map_put_all_of_some es (map_put k x f) t v fresh
      (ground (arith, here, new, ap f, compare_bytes-eq t k))

pub map_put_all-find :
    (es : Entries) (f : Values) (t : List ℕ)
    → IsFresh es f
    → map_put_all es f t ≡ or_else (find t es) (f t)
unfolding map_put_all map_put
map_put_all-find [] f t fresh = refl
map_put_all-find ((k, v) ∷ es) f t (bytes, new, fresh) = ground (
  arith,
  map_put_all_of_some es (map_put k v f) t v fresh,
  map_put_all-find es (map_put k v f) t fresh,
)

compare_bytes-append : (p a b : List ℕ) → compare_bytes (p ++ a) (p ++ b) ≡ compare_bytes a b
unfolding compare_bytes
compare_bytes-append [] a b = refl
compare_bytes-append (x ∷ p) a b = ground (arith, compare_bytes-append p a b)

pub find-with_prefix : (p t : List ℕ) (es : Entries) → find (p ++ t) (with_prefix p es) ≡ find t es
unfolding with_prefix
find-with_prefix p t [] = refl
find-with_prefix p t ((k, v) ∷ es) =
    ground (arith, compare_bytes-append p t k, find-with_prefix p t es)

pub map_put_all-same :
    (es : Entries) (f g : Values) (t : List ℕ) → f t ≡ g t → map_put_all es f t ≡ map_put_all es g t
unfolding map_put_all map_put
map_put_all-same [] f g t same = same
map_put_all-same ((k, v) ∷ es) f g t same =
    map_put_all-same es (map_put k v f) (map_put k v g) t (ground (arith, same))

pub map_put_all-with_prefix :
    (p : List ℕ) (es : Entries) (f : Values) (t : List ℕ)
    → map_put_all (with_prefix p es) f (p ++ t) ≡ map_put_all es (λ x. f (p ++ x)) t
unfolding map_put_all map_put with_prefix
map_put_all-with_prefix p [] f t = refl
map_put_all-with_prefix p ((k, v) ∷ es) f t =
    map_put_all-with_prefix p es (map_put (p ++ k) v f) t
    ∙ map_put_all-same es (λ x. map_put (p ++ k) v f (p ++ x)) (map_put k v (λ x. f (p ++ x))) t
        (rw (compare_bytes-append p t k, map_put) refl)
