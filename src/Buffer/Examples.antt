-- ===== src/Buffer/Examples.antt =====
-- The buffer of mini-pages on concrete addresses.
use quickstep.Base.{◌+◌, ◌*◌, ◌-◌, ◌^◌, ◌≡◌, refl, arith, some}
use quickstep.Base.{if◌then◌else◌, ◌==◌}
use quickstep.MapTable.Loops.{spin_retries}
use quickstep.Types.NodeSize.{n128, index}
use quickstep.Types.NodeMeta
use quickstep.Buffer.{MiniPageBuffer, bump, alloc, dealloc, get_meta_ref}
use quickstep.Buffer.Ring.{IsPlaced, IsLive, alloc_loop-IsPlaced, bump_overlaps}
use quickstep.Buffer.FreeList.{alloc-dealloc}

-- 1024 words: pages from 512 to the end and from 0 to 480, and a gap of 32 words between them. The
-- page at 512 has 128 bytes.
abbrev around : MiniPageBuffer
around = record {
  words = λ i. if i == 512 then 3 * 2 ^ 16 + 2 ^ 13 + 2 ^ 10 else 0;
  buff_size = 1024;
  free_lists = λ i. 2 ^ 64 - 1;
  head = 512;
  tail = 480;
}

alloc_loop-IsPlaced_example : IsPlaced around 16 (bump spin_retries 16 around)
alloc_loop-IsPlaced_example =
    alloc_loop-IsPlaced 16 around (record { head = omega arith; tail = omega arith })

bump_overlaps_example :
    let full : MiniPageBuffer = record around { tail = around.tail + 32 } in
    (bump spin_retries 32 around ≡ some (480, full))
    × (bump spin_retries 64 full ≡ some (512, record around { tail = around.tail + 32 + 64 }))
    × IsLive around 512
bump_overlaps_example = bump_overlaps 32 64 around (omega arith) refl (omega arith) (omega arith)

size_there : NodeMeta.size (get_meta_ref 512 around) ≡ some n128
unfolding get_meta_ref NodeMeta.size
size_there = refl

alloc-dealloc_example :
    (b₁ b₂ : MiniPageBuffer) × (dealloc 512 around ≡ some b₁)
    × (alloc n128 b₁ ≡ some (512, b₂))
    × (b₂.free_lists (index n128) ≡ around.free_lists (index n128))
    × (b₂.head ≡ around.head)
    × (b₂.tail ≡ around.tail)
alloc-dealloc_example = alloc-dealloc 512 n128 around size_there (omega arith)
