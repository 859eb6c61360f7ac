-- ===== src/Membership.antt =====
-- src/membership: gossip membership and failure detection.
pub mod Types
pub mod Known
pub mod Service
pub mod Nodes
pub mod Detector
pub mod Reachable
pub mod Cluster
