-- ===== src/Ui.antt =====
-- crates/ui: the launcher's windows, as far as they are state machines.
pub mod Palette
