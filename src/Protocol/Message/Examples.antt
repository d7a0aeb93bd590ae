-- ===== src/Protocol/Message/Examples.antt =====
-- The validation of crates/protocol/src/message.rs on examples.
use superspace.Base.{◌≡◌, ◌≢◌, refl, ◌↔◌, none, some, [], ◌∷◌, All}
use superspace.Base.Text.{trim}
use superspace.Protocol.Paths.{components}
use superspace.Protocol.Message.{
  TransferEntry, TransferManifest, validate_entry, validate, unsafe_path, missing_name,
}
use superspace.Protocol.Message.Validation.{
  StaysBelow, IsPlain, validate-StaysBelow, validate_entry_iff,
}

-- `a/./b`
abbrev nested : TransferEntry
nested = record { relative_path = b'a' ∷ b'/' ∷ b'.' ∷ b'/' ∷ b'b' ∷ []; size = 3; hash = [] }

-- `a/../..`
abbrev escaping : TransferEntry
escaping = record nested { relative_path = b'a' ∷ b'/' ∷ b'.' ∷ b'.' ∷ b'/' ∷ b'.' ∷ b'.' ∷ [] }

abbrev folder : TransferManifest
folder = record { id = 1; origin = 2; name = b'x' ∷ []; entries = nested ∷ [] }

escaping_refused : validate_entry escaping ≡ some (unsafe_path escaping.relative_path)
unfolding validate_entry superspace.Protocol.Paths.is_absolute components
escaping_refused = refl

blank_name : validate (record folder { name = b' ' ∷ b' ' ∷ [] }) ≡ some missing_name
unfolding validate trim
blank_name = refl

validate-StaysBelow_example :
    ((nested ∷ []) ≢ [])
    × (trim (b'x' ∷ []) ≢ [])
    × All (StaysBelow ((b'h' ∷ []) ∷ [])) (nested ∷ [])
unfolding validate trim superspace.Protocol.Paths.is_absolute components
validate-StaysBelow_example = validate-StaysBelow folder ((b'h' ∷ []) ∷ []) refl

validate_entry_iff_example :
    (validate_entry escaping ≡ none)
    ↔ ((escaping.relative_path ≢ []) × All IsPlain (components escaping.relative_path))
validate_entry_iff_example = validate_entry_iff escaping
