-- ===== src/Buffer.antt =====
-- src/buffer.rs: the circular buffer of mini-pages, for one thread. An exchange that nothing
-- interrupts succeeds.
pub mod Ring
pub mod FreeList
mod Examples
use quickstep.Base.{ℕ, zero, suc, ◌+◌, ◌-◌, ◌/◌, ◌^◌, true, false, Option, none, some}
use quickstep.Base.{◌==◌, ltb, leb, if◌then◌else◌, ◌&&◌}
use quickstep.Base.Words.{u64_max}
use quickstep.Types.NodeSize.{NodeSize, index, size_in_words}
use quickstep.Types.NodeMeta
use quickstep.Types.NodeMeta.{NodeMeta}
use quickstep.MapTable.Loops.{spin_retries}

-- `free_lists i` is `u64_max` for an empty list. Addresses count words.
pub record MiniPageBuffer : Type 0 where
  pub words : ℕ → ℕ
  pub buff_size : ℕ
  pub free_lists : ℕ → ℕ
  pub head : ℕ
  pub tail : ℕ

-- The assertions; those on the size hold by themselves.
unfoldable pub new : ℕ → Option MiniPageBuffer
new cache_size_lg =
    if leb 3 cache_size_lg && ltb cache_size_lg 64
    then some (record {
      words = λ i. 0;
      buff_size = 2 ^ cache_size_lg / 8;
      free_lists = λ i. u64_max;
      head = 0;
      tail = 0;
    })
    else none

-- A store to one cell.
unfoldable pub store : (ℕ → ℕ) → ℕ → ℕ → ℕ → ℕ
store cells i value j = if j == i then value else cells j

unfoldable pub pop_freelist : NodeSize → MiniPageBuffer → Option (ℕ × MiniPageBuffer)
pop_freelist size b =
    let page = b.free_lists (index size) in
    if page == u64_max
    then none
    else some (page, record b { free_lists = store b.free_lists (index size) (b.words (page + 1)) })

-- The loop of `alloc`.
unfoldable pub bump : ℕ → ℕ → MiniPageBuffer → Option (ℕ × MiniPageBuffer)
bump zero req_size b = none
bump (suc n) req_size b = elim (leb b.head b.tail) [
  | true ↦ elim (leb req_size (b.buff_size - b.tail)) [
    | true ↦ some (b.tail, record b { tail = b.tail + req_size })
    | false ↦ elim (ltb req_size b.head) [
      | true ↦ bump n req_size (record b { tail = 0 })
      | false ↦ none
    ]
  ]
  | false ↦ elim (leb req_size (b.head - b.tail)) [
    | true ↦ some (b.tail, record b { tail = b.tail + req_size })
    | false ↦ none
  ]
]

unfoldable pub alloc : NodeSize → MiniPageBuffer → Option (ℕ × MiniPageBuffer)
alloc size b = elim (pop_freelist size b) [
  | none ↦ bump spin_retries (size_in_words size) b
  | some found ↦ some found
]

-- `get_meta_ref`: the header is the first two words of the page.
unfoldable pub get_meta_ref : ℕ → MiniPageBuffer → NodeMeta
get_meta_ref node b = record { w0 = b.words node; w1 = b.words (node + 1) }

-- What `dealloc` makes of the header.
unfoldable pub retire : NodeMeta → NodeMeta
retire meta =
    NodeMeta.set_record_count
      (NodeMeta.clear_hot (NodeMeta.clear_eviction (NodeMeta.set_live meta false))) 0

-- The pointer to the next free page is kept in the second word. `none`: the header's size is no
-- `NodeSize`.
unfoldable pub dealloc : ℕ → MiniPageBuffer → Option MiniPageBuffer
dealloc slot b = elim (NodeMeta.size (get_meta_ref slot b)) [
  | none ↦ none
  | some size ↦ some (record b {
    words =
        store (store b.words slot (retire (get_meta_ref slot b)).w0) (slot + 1)
          (b.free_lists (index size));
    free_lists = store b.free_lists (index size) slot;
  })
]
