-- ===== src/Wal.antt =====
-- src/wal.rs: the write-ahead log. Its files are lists of bytes, and input and output succeed.
pub mod Record
pub mod Codec
pub mod Reader
pub mod File
pub mod Manager
mod Examples
