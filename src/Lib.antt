-- ===== src/Lib.antt =====
-- quickstep: a key-value store, a B-tree with leaf pages on disk, mini-pages in a buffer, and a
-- write-ahead log. Paths are from the repository's root.
--
-- Parts, and the modules that model them:
--   src/utils.rs   Utils        child pointers of inner nodes, as bytes
--   src/types.rs   Types        KVRecordType (RecordType), KVMeta (KvMeta), NodeSize, NodeMeta
--   src/wal.rs     Wal          the log: Record (the types and tags), Codec (write_record_payload,
--                               write_group, one record of read_records), Reader (the loops of
--                               read_records), File (the manifest and the file), Manager (the
--                               operations of WalManager)
--   src/map_table.rs  MapTable  the page table: Entry (PageEntry), Loops (the spin loops of
--                               read_page_entry, write_page_entry and upgrade), System (the guards
--                               of one page as a step relation)
--   src/buffer.rs  Buffer       new, alloc (Ring), pop_freelist and dealloc (FreeList)
--   src/node.rs    Node         a leaf: Search (binary_search, get), Put (try_put_with_suffix, try_put,
--                               replay_entries), Remove (tombstones, remove_entry), Fences
--                               (install_fences and what calls it), Layout (the invariant)
--   src/page_op.rs  PageOp      Split (LeafSplitPlan), Merge (LeafMergePlan), Flush
--                               (flush_dirty_entries), Access (get, try_put, merge_to_disk)
--   src/btree.rs   BTree        an inner node: Search (binary_search, search_for_leaf), Append, Rebuild
--                               (insert_entry_after_child, remove_entry_for_merge); and in Tree the
--                               tree: BPTree with its root, its slab and the split of its nodes,
--                               Traverse (try_read_traverse_leaf), Versions (the guards of a node),
--                               Locks (write_lock, lock_from_point), Parents (what src/lib.rs does
--                               with the parents of a leaf)
--   src/lock_manager.rs  LockManager  the page locks of a transaction
--   src/lib.rs     Db           the database: Config (QuickStepConfig), Recovery (the start, and
--                               replay_wal), Range (range_scan), Tx (what put and delete log)
-- Base is what they share: Boolean tests, lists over native numbers, little- and big-endian byte
-- strings, their order, memory, u64 operations, and bit operations as arithmetic.
--
-- Words: a u64 is a number below 2 ^ 64; shifts to the left wrap around (`% 2 ^ 64`), and `IsU64`
-- is a hypothesis or a conclusion where it matters. `transmute` of a pattern that the enumeration
-- does not have is `none`.
-- The log: a file is the list of its bytes. Reading and writing succeed, and `none` is a panic. A
-- HashMap is an association list; no result depends on its order. The index of the reader into its
-- bytes is the list of the bytes that are left. The reader's outer loop gets as many rounds as there
-- are bytes, and each round takes 13 bytes at least; the loop of rewrite_records gets a round for
-- each record, and each round takes one at least.
-- The lock of a page: `env` gives what the loop finds at each of its atomic accesses, so other
-- threads may do anything in between; 14 rounds are SPIN_RETRIES. A step of System is one successful
-- access, and the page counts the guards that exist.
-- The buffer: one thread, whose exchanges succeed. The loop of alloc takes at most two of its 14
-- rounds then.
-- A leaf: its bytes are a function of the address, and its 16 bytes of header are kept apart from
-- them. Every access is where the code has it, inside the page or not; debug assertions do not exist.
-- The loop of binary_search gets a round for each record and one more, and each round makes the range
-- smaller.
-- Page operations: the disk is the leaf at each address and the buffer the node at each index. A
-- leaf given as two arguments of a plan is two leaves.
-- An inner node: its buffer is a function of the address, and its version lock is kept apart. The loop
-- of binary_search gets a round for each pivot and one more.
-- The tree: the words of the version locks are kept apart from the nodes. The way down has the level of
-- its node as its fuel, as the code counts it down, and `env` gives the tree that each access finds. The
-- retries get SPIN_RETRIES rounds, as in the code. A step of Versions is one access to a node by any
-- thread; write locks on a path are taken while one thread runs, and `weak` says which of its exchanges
-- fail without a reason, for each attempt and level. Memory that is allocated is an argument, and there is
-- always enough of it.
-- The lock manager: a call takes what the page table answers as an argument, and whether debug
-- assertions are on.
-- The database: its words, its buffer, its disk and its log, while one thread runs. The environment is
-- a function and the arguments a list of texts; a text is the list of its bytes. The loop over the
-- arguments gets a round for each of them. A BTreeMap is the list of its entries by key, a sort by key
-- an insertion sort, and the replay goes through the pages in their order.
--
-- Not modelled: failing input and output, the mutex of WalManager (a single owner is assumed), and
-- eviction in src/buffer.rs, load_leaf in src/lock_manager.rs, BPNode::init in src/btree.rs, the calls
-- by which put and delete in src/lib.rs go from the tree to a page and back, its threads, and the files
-- io_engine, debug, error and rand under src/.
pub mod Base
pub mod Utils
pub mod Types
pub mod Wal
pub mod MapTable
pub mod Node
pub mod PageOp
pub mod BTree
pub mod Db
pub mod Buffer
pub mod LockManager
