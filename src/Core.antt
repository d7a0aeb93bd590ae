-- ===== src/Core.antt =====
-- crates/core: the launcher's own logic.
pub mod Search
pub mod Preferences
