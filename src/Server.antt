-- ===== src/Server.antt =====
-- src/main.rs: the start of a node, its statistics page, and the endpoints of its three maps.
pub mod Args
pub mod Boot
pub mod Endpoints
pub mod Node
pub mod Routes
