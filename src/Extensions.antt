-- ===== src/Extensions.antt =====
-- What an extension may do, and its packages (crates/extensions).
pub mod Policy
pub mod Manifest
pub mod Package
pub mod Registry
pub mod View
