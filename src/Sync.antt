-- ===== src/Sync.antt =====
-- crates/sync/src/lib.rs: the coordinator of clipboard, history and replication.
pub mod Codec
pub mod Calls
pub mod Parts
pub mod Coordinator
pub mod Frames
pub mod Restore
