-- ===== src/Odgm/MetaManager.antt =====
-- `OprcMetaManager` of data-plane/oprc-odgm/src/metadata/mod.rs: collections, their shards, and the
-- default assignment of shards to members.
pub mod Types
pub mod Assign
pub mod Create
pub mod Shards
pub mod Default
mod Examples
