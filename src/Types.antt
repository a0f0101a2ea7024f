-- ===== src/Types.antt =====
-- src/types.rs: the packed words of a leaf. The bit patterns are numbers below 2 ^ 64.
pub mod RecordType
pub mod KvMeta
pub mod NodeSize
pub mod NodeMeta
mod Examples
