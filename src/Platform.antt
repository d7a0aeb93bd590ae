-- ===== src/Platform.antt =====
-- crates/platform: the desktop clipboard behind an interface.
pub mod Clipboard
