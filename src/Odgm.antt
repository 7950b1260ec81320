-- ===== src/Odgm.antt =====
-- The object data grid manager (data-plane/oprc-odgm).
mod Examples
pub mod Varint
pub mod StorageKey
pub mod GranularKey
pub mod ObjectMetadata
pub mod Identity
pub mod RaftLog
pub mod MetaManager
pub mod Fallible
pub mod Replication
pub mod Events
pub mod EntryStore
