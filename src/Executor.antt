-- ===== src/Executor.antt =====
-- src/executor: the distributed task queue and its workers.
pub mod Types
pub mod Queue
pub mod Routing
pub mod Frames
pub mod Handlers
pub mod Sync
pub mod Worker
