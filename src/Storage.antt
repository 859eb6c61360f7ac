-- ===== src/Storage.antt =====
-- src/storage: partitions and their owners, and the distributed map.
pub mod Sort
pub mod Partitioner
pub mod Protocol
pub mod Memory
pub mod Handlers
pub mod Sync
