-- ===== src/Network.antt =====
-- crates/network: replication, framing and resumable transfer between paired devices.
pub mod Replication
pub mod Blob
pub mod Transfer
pub mod Frame
