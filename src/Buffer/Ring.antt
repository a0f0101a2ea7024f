-- ===== src/Buffer/Ring.antt =====
-- Where `alloc` puts a page that no free list has.
use quickstep.Base.{ℕ, suc, ◌+◌, ◌-◌, ◌≤◌, ◌<◌, ◌≡◌, ◌⊎◌, inl, inr, refl, arith, Option, none, some}
use quickstep.Base.{true, false, leb, ltb, Bool-cases}
use quickstep.Buffer.{MiniPageBuffer, bump}
use quickstep.MapTable.Loops.{spin_retries}

-- An address between the oldest page and the unmanaged memory, around the end.
abbrev pub IsLive : MiniPageBuffer → ℕ → Type 0
IsLive b i =
    ((b.head ≤ b.tail) × (b.head ≤ i) × (i < b.tail))
    ⊎ ((b.tail < b.head) × ((i < b.tail) ⊎ ((b.head ≤ i) × (i < b.buff_size))))

pub record IsRing (b : MiniPageBuffer) : Type 0 where
  pub head : b.head ≤ b.buff_size
  pub tail : b.tail ≤ b.buff_size

-- No room, neither behind the tail nor, around the end, in front of the head.
abbrev pub IsFull : MiniPageBuffer → ℕ → Type 0
IsFull b req =
    ((b.head ≤ b.tail) × (b.buff_size < b.tail + req) × (b.head ≤ req))
    ⊎ ((b.tail < b.head) × (b.head < b.tail + req))

abbrev pub IsPlaced : MiniPageBuffer → ℕ → Option (ℕ × MiniPageBuffer) → Type 0
IsPlaced b req none = IsFull b req
IsPlaced b req (some (page, b')) =
    (page + req ≤ b.buff_size)
    × ((i : ℕ) → page ≤ i → i < page + req → IsLive b i → ⊥)
    × (b'.tail ≡ page + req)
    × (b'.head ≡ b.head)
    × IsRing b'

-- The round after the tail went back to the start.
bump_after_wrap :
    (n req : ℕ) (b : MiniPageBuffer)
    → req < b.head
    → bump (suc n) req (record b { tail = 0 }) ≡ some (0, record b { tail = 0 + req })
unfolding bump
bump_after_wrap n req b room = ground arith

bump-IsPlaced :
    (n req : ℕ) (b : MiniPageBuffer) → IsRing b → IsPlaced b req (bump (suc (suc n)) req b)
unfolding bump
bump-IsPlaced n req b h = elim (Bool-cases (leb b.head b.tail)) [
  | inl low ↦ elim (Bool-cases (leb req (b.buff_size - b.tail))) [
    | inl room ↦
        rw (low, room, bump)
          (
            ground arith,
            λ i from to live. ground arith,
            refl,
            refl,
            record { head = h.head; tail = ground arith },
          )
    | inr full ↦ elim (Bool-cases (ltb req b.head)) [
      | inl wraps ↦
          rw (low, full, wraps, bump)
            (rw (bump_after_wrap n req b (ground arith)) (
              ground arith,
              λ i from to live. ground arith,
              refl,
              refl,
              record { head = h.head; tail = ground arith },
            ))
      | inr no_wrap ↦ rw (low, full, no_wrap, bump) (ground arith)
    ]
  ]
  | inr high ↦ elim (Bool-cases (leb req (b.head - b.tail))) [
    | inl room ↦
        rw (high, room, bump)
          (
            ground arith,
            λ i from to live. ground arith,
            refl,
            refl,
            record { head = h.head; tail = ground arith },
          )
    | inr full ↦ rw (high, full, bump) (ground arith)
  ]
]

-- With head and tail inside the buffer, the loop of `alloc` gives no page only if there is no room
-- for it. A page that it gives lies inside the buffer, on no address between head and tail (around
-- the end), and the tail stands behind it afterwards.
pub alloc_loop-IsPlaced :
    (req : ℕ) (b : MiniPageBuffer) → IsRing b → IsPlaced b req (bump spin_retries req b)
alloc_loop-IsPlaced req b h = bump-IsPlaced 12 req b h

-- When a page fills the gap between tail and head exactly, the tail reaches the head, which the
-- next call takes for an empty buffer: a page that fits behind the head is then put on the head,
-- which the first buffer holds as live.
pub bump_overlaps :
    (req more : ℕ) (b : MiniPageBuffer)
    → b.tail < b.head
    → b.tail + req ≡ b.head
    → 0 < more
    → b.head + more ≤ b.buff_size
    → let full : MiniPageBuffer = record b { tail = b.tail + req } in
      (bump spin_retries req b ≡ some (b.tail, full))
      × (bump spin_retries more full ≡ some (b.head, record b { tail = b.tail + req + more }))
      × IsLive b b.head
unfolding bump
bump_overlaps req more b gap exact some_more room =
    let high : leb b.head b.tail ≡ false = ground arith in
    let fits : leb req (b.head - b.tail) ≡ true = ground arith in
    let met : leb b.head (b.tail + req) ≡ true = ground arith in
    let behind : leb more (b.buff_size - (b.tail + req)) ≡ true = ground arith in
    (
      rw (high, fits, bump) refl,
      rw (met, behind, bump) (rw exact refl),
      inr (gap, inr (omega arith, omega arith)),
    )
