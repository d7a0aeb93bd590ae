-- ===== src/Storage.antt =====
-- crates/storage: what is kept on disk.
pub mod Entry
pub mod Blob
pub mod Like
pub mod History
pub mod Trusted
