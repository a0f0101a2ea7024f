-- ===== src/PageOp.antt =====
-- src/page_op.rs: plans that split and merge leaves, the flush of a mini-page to its leaf on disk,
-- and reads and writes of one page. `get_page` is IoEngine::get_page.
pub mod Split
pub mod Merge
pub mod Flush
pub mod Access
mod Examples
use quickstep.Base.{List, [], ◌∷◌, ◌++◌, ℕ, not, true, false, if◌then◌else◌}
use quickstep.Types.KvMeta
use quickstep.Node.{Node, LeafEntry, entries, get_node_prefix}

pub record LeafEntryOwned : Type 0 where
  pub key : List ℕ
  pub value : List ℕ

unfoldable pub from_entry : List ℕ → LeafEntry → LeafEntryOwned
from_entry prefix entry = record { key = prefix ++ entry.key_suffix; value = entry.value }

-- The entries that are no fences.
unfoldable pub live_entries : List LeafEntry → List LeafEntry
live_entries [] = []
live_entries (e ∷ es) = let rest = live_entries es in if KvMeta.fence e.meta then rest else e ∷ rest

unfoldable pub to_owned : List ℕ → List LeafEntry → List LeafEntryOwned
to_owned prefix [] = []
to_owned prefix (e ∷ es) = from_entry prefix e ∷ to_owned prefix es

unfoldable pub owned_entries : Node → List LeafEntryOwned
owned_entries n = to_owned (get_node_prefix n) (live_entries (entries n))

-- What `replay_entries` takes.
unfoldable pub key_values : List LeafEntryOwned → List (List ℕ × List ℕ)
key_values [] = []
key_values (e ∷ es) = (e.key, e.value) ∷ key_values es
