-- ===== src/Odgm/RaftLog.antt =====
-- `OpenraftLogStore` of data-plane/oprc-odgm/src/replication/raft/raft_log.rs, over two storage
-- backends. What the openraft and serde_json crates provide is the parameter `Openraft`: the types
-- of log identifiers, votes and entries, and their JSON. An error keeps its subject and verb.
pub mod Types
pub mod Metadata
pub mod Entries
pub mod Spec
pub mod Log
pub mod Image
pub mod Represents
pub mod Reads
pub mod Writes
pub mod Changes
pub mod Run
pub mod Errors
mod Examples
