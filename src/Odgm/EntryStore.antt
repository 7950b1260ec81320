-- ===== src/Odgm/EntryStore.antt =====
-- The entry store of an object shard: data-plane/oprc-odgm/src/shard/entry_store_impl.rs.
pub mod Types
pub mod Operations
pub mod Batch
pub mod Names
pub mod Ends
pub mod Entries
pub mod Direct
mod Examples
pub mod BatchDeleted
pub mod BatchDelete
pub mod DeleteObject
pub mod BatchErrors
pub mod BatchWritten
pub mod BatchSet
pub mod Writes
pub mod Reads
