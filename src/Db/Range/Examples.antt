-- ===== src/Db/Range/Examples.antt =====
-- A scan of two pages that are the same leaf.
use quickstep.Base.{ℕ, ◌≡◌, ◌^◌, ◌↔◌, refl, List, [], ◌∷◌, some}
use quickstep.Base.Order.{compare_bytes}
use quickstep.MapTable.Entry.{state, pending_write}
use quickstep.Node.Examples.{one}
use quickstep.Db.{Db}
use quickstep.Db.Recovery.{Entries}
use quickstep.Db.Recovery.Examples.{fences_db}
use quickstep.Db.Range.{range_scan}
use quickstep.Db.Range.Sorted.{IsIn, IsAscending}
use quickstep.Db.Range.Stored.{IsStored, IsIdle, range_scan-IsStored}

abbrev two_pages : Db
two_pages = record fences_db { capacity = 2; words = λ page. 2 ^ 15; disk = λ addr. one }

two_pages-IsIdle : IsIdle two_pages
unfolding state pending_write
two_pages-IsIdle page = (refl, refl)

range_scan-IsStored_example :
    (es : Entries) × (range_scan (1 ∷ []) (9 ∷ []) two_pages ≡ some es)
    × IsAscending es
    × ((e : List ℕ × List ℕ) → IsIn e es ↔ IsStored two_pages (1 ∷ []) (9 ∷ []) e)
unfolding compare_bytes
range_scan-IsStored_example = range_scan-IsStored (1 ∷ []) (9 ∷ []) two_pages refl two_pages-IsIdle
