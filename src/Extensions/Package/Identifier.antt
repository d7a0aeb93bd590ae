-- ===== src/Extensions/Package/Identifier.antt =====
-- What a valid identifier is as a path (crates/extensions/src/package.rs), where packages are installed
-- and published by joining a directory with it.
use superspace.Base.{◌≡◌, refl, true, false, arith}
use superspace.Base.Text.{Text, as_bytes, is_empty}
use superspace.Protocol.Paths.{dot, dot_dot}
use superspace.Extensions.Package.{valid_identifier, is_identifier_byte, all_bytes}

pub valid_identifier-parts :
    (id : Text)
    → valid_identifier id ≡ true
    → (is_empty id ≡ false) × (all_bytes is_identifier_byte (as_bytes id) ≡ true)
unfolding valid_identifier
valid_identifier-parts id h = (ground arith, ground arith)

-- Both are valid.
dots_are_valid : (valid_identifier dot ≡ true) × (valid_identifier dot_dot ≡ true)
unfolding valid_identifier all_bytes as_bytes
dots_are_valid = (refl, refl)
