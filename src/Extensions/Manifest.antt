-- ===== src/Extensions/Manifest.antt =====
-- crates/extensions/src/manifest.rs, without the capabilities, which stand with the policy. A semantic
-- version is of a type that a library gives.
use superspace.Base.{List}
use superspace.Base.Text.{Text}
use superspace.Extensions.Policy.{Capability}

pub record Command : Type 0 where
  pub id : Text
  pub title : Text
  pub keywords : List Text

pub record ExtensionManifest (Version : Type 0) : Type 0 where
  pub id : Text
  pub name : Text
  pub version : Version
  pub interface : Text
  pub commands : List Command
  pub capabilities : List Capability
