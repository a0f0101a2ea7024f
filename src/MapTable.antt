-- ===== src/MapTable.antt =====
-- src/map_table.rs: the page table. Each page has one atomic word, with its address and its lock.
pub mod Entry
pub mod Loops
pub mod System
mod Examples
