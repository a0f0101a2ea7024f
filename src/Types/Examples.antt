-- ===== src/Types/Examples.antt =====
-- The packed words on concrete numbers.
use quickstep.Base.{◌^◌, ◌≡◌, refl, none, some, ◌+◌, ◌*◌}
use quickstep.Types.NodeSize.{leaf_page}
use quickstep.Types.NodeMeta
use quickstep.Types.NodeMeta.{NodeMeta}
use quickstep.Types.NodeMeta.Header.{size-mark_hot_leaf_page}

-- A live leaf page of the full size, with 3 records, page 9 at the disk address 4.
abbrev page_header : NodeMeta
page_header = record { w0 = 4 * 2 ^ 16 + 6 * 2 ^ 13 + 2 ^ 10 + 3; w1 = 9 * 2 ^ 16 + 4080 }

is_leaf_page : NodeMeta.size page_header ≡ some leaf_page
unfolding NodeMeta.size
is_leaf_page = refl

size-mark_hot_leaf_page_example : NodeMeta.size (NodeMeta.mark_hot page_header) ≡ none
size-mark_hot_leaf_page_example = size-mark_hot_leaf_page page_header is_leaf_page
