-- ===== src/Buffer/FreeList.antt =====
-- A page that is freed is the first to be used again.
use quickstep.Base.{ℕ, ◌+◌, ◌<◌, ◌≡◌, refl, arith, some}
use quickstep.Base.{◌==◌, false}
use quickstep.Base.Words.{u64_max}
use quickstep.Types.NodeSize.{NodeSize, index}
use quickstep.Types.NodeMeta
use quickstep.Buffer.{MiniPageBuffer, store, pop_freelist, alloc, get_meta_ref, retire, dealloc}

store-same : (cells : ℕ → ℕ) (i value : ℕ) → store cells i value i ≡ value
unfolding store
store-same cells i value = ground arith

-- The buffer after the page was freed.
abbrev pub freed : ℕ → NodeSize → MiniPageBuffer → MiniPageBuffer
freed slot size b = record b {
  words =
      store (store b.words slot (retire (get_meta_ref slot b)).w0) (slot + 1)
        (b.free_lists (index size));
  free_lists = store b.free_lists (index size) slot;
}

dealloc-freed :
    (slot : ℕ) (size : NodeSize) (b : MiniPageBuffer)
    → NodeMeta.size (get_meta_ref slot b) ≡ some size
    → dealloc slot b ≡ some (freed slot size b)
unfolding dealloc
dealloc-freed slot size b h = rw (h, dealloc) refl

pop-freed :
    (slot : ℕ) (size : NodeSize) (b : MiniPageBuffer)
    → slot < u64_max
    → pop_freelist size (freed slot size b)
      ≡ some (
        slot,
        record (freed slot size b) {
          free_lists =
              store (freed slot size b).free_lists (index size) (b.free_lists (index size));
        },
      )
unfolding pop_freelist
pop-freed slot size b small =
    let first = store-same b.free_lists (index size) slot in
    let behind =
      store-same (store b.words slot (retire (get_meta_ref slot b)).w0) (slot + 1)
        (b.free_lists (index size)) in
    let there : (slot == u64_max) ≡ false = ground arith in rw (first, there, behind) refl

-- Freeing a page whose header holds a size, at an address other than 2 ^ 64 - 1, and allocating a
-- page of that size gives the same page again, with the free list of the size, the head and the
-- tail as before.
pub alloc-dealloc :
    (slot : ℕ) (size : NodeSize) (b : MiniPageBuffer)
    → NodeMeta.size (get_meta_ref slot b) ≡ some size
    → slot < u64_max
    → (b₁ b₂ : MiniPageBuffer) × (dealloc slot b ≡ some b₁)
      × (alloc size b₁ ≡ some (slot, b₂))
      × (b₂.free_lists (index size) ≡ b.free_lists (index size))
      × (b₂.head ≡ b.head)
      × (b₂.tail ≡ b.tail)
unfolding alloc
alloc-dealloc slot size b h small = (
  freed slot size b,
  record (freed slot size b) {
    free_lists = store (freed slot size b).free_lists (index size) (b.free_lists (index size));
  },
  dealloc-freed slot size b h,
  rw (pop-freed slot size b small, alloc) refl,
  store-same (freed slot size b).free_lists (index size) (b.free_lists (index size)),
  refl,
  refl,
)
