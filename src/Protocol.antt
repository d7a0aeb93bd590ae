-- ===== src/Protocol.antt =====
-- crates/protocol: the types that peers exchange, and the checks on them.
pub mod Clock
pub mod Paths
pub mod Message
