-- ===== src/Storage.antt =====
-- The data-plane storage crate (commons/oprc-dp-storage): values, statistics, the in-memory
-- backend with its transactions and snapshots, and the contract that its clients rely on.
mod Examples
pub mod Outcome
pub mod Value
pub mod Stats
pub mod Memory
pub mod Contract
