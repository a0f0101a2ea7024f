-- ===== src/Node/Examples.antt =====
-- Leaves on concrete bytes.
use quickstep.Base.{ℕ, zero, suc, ◌<◌, ◌≤◌, ◌≢◌, ◌++◌, ◌+◌, ◌≡◌, refl, arith, subst, List, [], ◌∷◌}
use quickstep.Base.{some, true, false, All, length, take}
use quickstep.Base.Bytes.{IsByte, from_le, to_le}
use quickstep.Base.Words.{IsU64}
use quickstep.Base.Memory.{write_bytes, read_bytes, move_bytes}
use quickstep.Types.RecordType.{tombstone}
use quickstep.Types.KvMeta
use quickstep.Types.NodeSize.{n64, n128, size_in_bytes, size_in_words, index}
use quickstep.Types.NodeMeta
use quickstep.Node.{
  Node, get_node_prefix, count, meta_addr, get_kv_meta, set_kv_meta, fence_bounds, get_lookahead,
}
use quickstep.Node.Search.{missing, binary_search, get}
use quickstep.Node.Search.Sorted.{IsPlace, binary_search-IsPlace, key_at}
use quickstep.Node.Search.Lookup.{IsUser}
use quickstep.Node.Layout.{IsNode, offset_at, len_at, val_at}
use quickstep.Node.Put.{put_done, put_new, try_put_with_suffix, find_min_offset, min_offset_from}
use quickstep.Node.Put.Insert.{find_min_offset-le}
use quickstep.Node.Put.Insert.Invariant.{inserted}
use quickstep.Node.Put.Result.{IsPut, inserted-IsPut}
use quickstep.Node.Put.Spec.{try_put_with_suffix-IsPut, put_new_overwrites}
use quickstep.Node.Fences.{install_fences, place_fences}
use quickstep.Node.Fences.Installed.{placed-IsNode, install_fences-IsNode}
use quickstep.Node.Remove.{remove_entry, mark_entry_tombstone, is_tombstone, erase_kv_in_buffer}
use quickstep.Node.Remove.Erase.{erase_kv_in_buffer-overwrites}
use quickstep.Node.Remove.Lowest.{IsRemoved, remove_entry-IsRemoved}
use quickstep.Node.Remove.Tombstone.{mark_entry_tombstone-get}

-- A page of zeros of 128 bytes.
abbrev pub blank : Node
blank = record { header = NodeMeta.reset_header 7 n128 0; page = λ i. 0 }

pub blank_size : NodeMeta.size blank.header ≡ some n128
unfolding NodeMeta.size NodeMeta.reset_header NodeMeta.set_record_count index size_in_bytes
blank_size = refl

pub blank_word : IsU64 blank.header.w0
unfolding NodeMeta.reset_header NodeMeta.set_record_count index size_in_bytes
blank_word = omega arith

install_fences-IsNode_example :
    (n' : Node) × (install_fences (0 ∷ []) (255 ∷ []) blank ≡ some n')
    × IsNode n'
    × (count n' ≡ 2)
    × (fence_bounds n' ≡ (0 ∷ [], 255 ∷ []))
unfolding size_in_bytes size_in_words index
install_fences-IsNode_example =
    install_fences-IsNode (0 ∷ []) (255 ∷ []) blank n128 blank_size blank_word (omega arith)

-- The fences alone, and with one entry.
unfoldable pub fences : Node
fences = place_fences (0 ∷ []) (255 ∷ []) blank 127

pub fences-IsNode : IsNode fences
unfolding fences
fences-IsNode = placed-IsNode (0 ∷ []) (255 ∷ []) blank 127 blank_word (omega arith) (omega arith)

pub fences_count : count fences ≡ 2
unfolding fences NodeMeta.reset_header NodeMeta.set_record_count set_kv_meta index size_in_bytes
    NodeMeta.record_count
fences_count = refl

pub nothing_there : binary_search fences (5 ∷ []) ≡ missing 1
unfolding binary_search fences NodeMeta.reset_header NodeMeta.set_record_count set_kv_meta index
    size_in_bytes NodeMeta.record_count
nothing_there = refl

pub lowest : find_min_offset fences ≡ some 126
unfolding find_min_offset min_offset_from fences NodeMeta.reset_header NodeMeta.set_record_count
    set_kv_meta index size_in_bytes NodeMeta.record_count KvMeta.offset get_kv_meta write_bytes
    read_bytes to_le from_le KvMeta.new KvMeta.set_offset
lowest = refl

pub key : All IsByte (5 ∷ [])
key = (omega arith, tt)

search_result : IsPlace fences (5 ∷ []) (binary_search fences (5 ∷ []))
search_result = binary_search-IsPlace fences (5 ∷ []) fences-IsNode.ordered key

binary_search-IsPlace_example : IsPlace fences (5 ∷ []) (binary_search fences (5 ∷ []))
binary_search-IsPlace_example = binary_search-IsPlace fences (5 ∷ []) fences-IsNode.ordered key

try_put_with_suffix-IsPut_example :
    (n' : Node) × (try_put_with_suffix (5 ∷ []) (7 ∷ []) fences ≡ put_done n')
    × IsPut fences (5 ∷ []) (7 ∷ []) n'
try_put_with_suffix-IsPut_example =
    try_put_with_suffix-IsPut fences (5 ∷ []) (7 ∷ []) fences-IsNode key (
      rw nothing_there (
        omega (arith, fences_count),
        omega arith,
        omega arith,
        (126, lowest, omega (arith, fences_count)),
      ))

pub one : Node
one = inserted fences 1 (5 ∷ []) (7 ∷ []) 124

pub one-IsNode : IsNode one
unfolding one
one-IsNode =
    let put =
      inserted-IsPut fences 1 (5 ∷ []) (7 ∷ []) 124 fences-IsNode
        (record { key = omega arith; value = omega arith; offset = omega arith; bytes = key })
        (subst (IsPlace fences (5 ∷ [])) nothing_there search_result) (omega (arith, fences_count))
        (omega (arith, fences_count))
        (λ i high. omega (arith, find_min_offset-le fences 126 i lowest high)) in
    put.node

one_count : count one ≡ 3
unfolding one fences NodeMeta.reset_header NodeMeta.set_record_count set_kv_meta index size_in_bytes
    NodeMeta.record_count NodeMeta.inc_record_count
one_count = refl

one_lowest : find_min_offset one ≡ some 124
unfolding one find_min_offset min_offset_from fences NodeMeta.reset_header NodeMeta.set_record_count
    set_kv_meta index size_in_bytes NodeMeta.record_count KvMeta.offset get_kv_meta write_bytes
    read_bytes to_le from_le KvMeta.new KvMeta.set_offset NodeMeta.inc_record_count move_bytes
    get_lookahead
one_lowest = refl

one_offset : offset_at one 1 ≡ 124
unfolding one fences set_kv_meta KvMeta.offset get_kv_meta write_bytes read_bytes to_le from_le
    KvMeta.new KvMeta.set_offset move_bytes NodeMeta.reset_header NodeMeta.set_record_count index
    size_in_bytes NodeMeta.record_count get_lookahead
one_offset = refl

one_live : is_tombstone (KvMeta.typ (get_kv_meta one 1)) ≡ false
unfolding one fences set_kv_meta KvMeta.typ get_kv_meta write_bytes read_bytes to_le from_le
    KvMeta.new KvMeta.set_offset move_bytes NodeMeta.reset_header NodeMeta.set_record_count index
    size_in_bytes NodeMeta.record_count is_tombstone get_lookahead
one_live = refl

user : IsUser one 1
user = (omega arith, omega (arith, one_count))

remove_entry-IsRemoved_example :
    (n' : Node) × (remove_entry 1 one ≡ some (n', true)) × IsRemoved one (key_at one 1) n'
remove_entry-IsRemoved_example =
    remove_entry-IsRemoved one 1 one-IsNode user (omega (arith, one_count))
      λ j high. omega (arith, one_offset, find_min_offset-le one 124 j one_lowest high)

mark_entry_tombstone-get_example :
    (n' : Node) × (mark_entry_tombstone 1 one ≡ (n', true))
    × IsNode n'
    × (KvMeta.typ (get_kv_meta n' 1) ≡ tombstone)
    × (get n' (get_node_prefix one ++ key_at one 1) ≡ some (some (val_at one 1)))
    × ((t : List ℕ)
        → All IsByte t
        → t ≢ key_at one 1
        → get n' (get_node_prefix one ++ t) ≡ get one (get_node_prefix one ++ t))
mark_entry_tombstone-get_example = mark_entry_tombstone-get one 1 one-IsNode user one_live

-- A smaller page, whose last free byte the record takes by the code's count.
abbrev small : Node
small =
    place_fences (0 ∷ []) (255 ∷ [])
      (record { header = NodeMeta.reset_header 7 n64 0; page = λ i. 0 }) 63

abbrev long_key : List ℕ
long_key = 1 ∷ 2 ∷ 3 ∷ 4 ∷ 5 ∷ 6 ∷ 7 ∷ 8 ∷ []

abbrev value : List ℕ
value =
    1 ∷ 2 ∷ 3 ∷ 4 ∷ 5 ∷ 6 ∷ 7 ∷ 8 ∷ 9 ∷ 10 ∷ 11 ∷ 1 ∷ 2 ∷ 3 ∷ 4 ∷ 5 ∷ 6 ∷ 7 ∷ 8 ∷ 9 ∷ 10 ∷ 11 ∷ []

small_count : count small ≡ 2
unfolding set_kv_meta KvMeta.offset KvMeta.key_size KvMeta.val_size get_kv_meta write_bytes
    read_bytes to_le from_le KvMeta.new KvMeta.set_offset move_bytes NodeMeta.reset_header
    NodeMeta.set_record_count index size_in_bytes NodeMeta.record_count get_lookahead
    NodeMeta.inc_record_count
small_count = refl

small_lowest :
    find_min_offset small ≡ some (meta_addr (count small) + (length long_key + length value))
unfolding find_min_offset min_offset_from set_kv_meta KvMeta.offset KvMeta.key_size KvMeta.val_size
    get_kv_meta write_bytes read_bytes to_le from_le KvMeta.new KvMeta.set_offset move_bytes
    NodeMeta.reset_header NodeMeta.set_record_count index size_in_bytes NodeMeta.record_count
    get_lookahead NodeMeta.inc_record_count
small_lowest = refl

long_key_bytes : All IsByte long_key
long_key_bytes = (
  omega arith,
  (
    omega arith,
    (omega arith, (omega arith, (omega arith, (omega arith, (omega arith, (omega arith, tt)))))),
  ),
)

put_new_overwrites_example :
    (n' : Node) × (put_new 1 long_key value small ≡ put_done n')
    × (get_kv_meta n' (count small) ≡ from_le (take 8 long_key))
put_new_overwrites_example =
    put_new_overwrites small 1 long_key value small_lowest (omega arith) (omega arith)
      long_key_bytes (omega (arith, small_count)) (omega arith)

-- Two entries, the second one below the first and shorter.
two : Node
unfolding one
two = inserted one 2 (6 ∷ []) [] 123

two_count : count two ≡ 4
unfolding two one fences set_kv_meta KvMeta.offset KvMeta.key_size KvMeta.val_size get_kv_meta
    write_bytes read_bytes to_le from_le KvMeta.new KvMeta.set_offset move_bytes
    NodeMeta.reset_header NodeMeta.set_record_count index size_in_bytes NodeMeta.record_count
    get_lookahead NodeMeta.inc_record_count
two_count = refl

two_lengths : len_at two 1 ≡ 2
unfolding two one fences set_kv_meta KvMeta.offset KvMeta.key_size KvMeta.val_size get_kv_meta
    write_bytes read_bytes to_le from_le KvMeta.new KvMeta.set_offset move_bytes
    NodeMeta.reset_header NodeMeta.set_record_count index size_in_bytes NodeMeta.record_count
    get_lookahead NodeMeta.inc_record_count
two_lengths = refl

two_offsets :
    (offset_at two 0 ≡ 126)
    × (offset_at two 1 ≡ 124)
    × (offset_at two 2 ≡ 123)
    × (offset_at two 3 ≡ 127)
unfolding two one fences set_kv_meta KvMeta.offset KvMeta.key_size KvMeta.val_size get_kv_meta
    write_bytes read_bytes to_le from_le KvMeta.new KvMeta.set_offset move_bytes
    NodeMeta.reset_header NodeMeta.set_record_count index size_in_bytes NodeMeta.record_count
    get_lookahead NodeMeta.inc_record_count
two_offsets = (refl, refl, refl, refl)

two_lowest : (k : ℕ) → k < count two → offset_at two 2 ≤ offset_at two k
two_lowest zero high = omega (arith, two_offsets.0, two_offsets.2)
two_lowest (suc zero) high = omega (arith, two_offsets.1, two_offsets.2)
two_lowest (suc (suc zero)) high = omega arith
two_lowest (suc (suc (suc zero))) high = omega (arith, two_offsets.2, two_offsets.3)
two_lowest (suc (suc (suc (suc k)))) high = absurd (omega (arith, high, two_count))

erase_kv_in_buffer-overwrites_example :
    let n' = (erase_kv_in_buffer (get_kv_meta two 1) two).0 in
    (get_kv_meta n' 0 ≡ get_kv_meta two 0)
    × (n'.page (offset_at n' 0 + 0) ≡ two.page (offset_at two 1 + 0))
erase_kv_in_buffer-overwrites_example =
    erase_kv_in_buffer-overwrites two 1 0 2 0 (omega (arith, two_count))
      (omega (arith, two_offsets.0, two_offsets.1, two_lengths))
      (omega (arith, two_offsets.1, two_offsets.2)) two_lowest
      (omega (arith, two_count, two_offsets.2)) (omega (arith, two_count))
      (omega (arith, two_offsets.1, two_offsets.2, two_lengths))
