-- ===== src/Protocol/Message.antt =====
-- crates/protocol/src/message.rs: messages and the validation of what a peer announces.
-- A device, event or transfer id is a u128 (a `Uuid`, whose order is that number's), a digest the
-- list of its bytes. BLAKE3 is third-party code: `digest` is a parameter where it is used.
pub mod Validation
mod Examples
use superspace.Base.{
  ℕ, Bool, true, false, ◌||◌, Option, none, some, List, [], ◌∷◌, ◌==◌, if◌then◌else◌,
}
use superspace.Base.Bytes.{Bytes}
use superspace.Base.Text.{Text, is_empty, trim}
use superspace.Protocol.Clock.{HybridTimestamp}
use superspace.Protocol.Paths.{
  Component, prefix, root_dir, cur_dir, parent_dir, normal, is_absolute, components,
}

abbrev pub Uuid : Type 0
Uuid = ℕ

abbrev pub DeviceId : Type 0
DeviceId = Uuid

abbrev pub TransferId : Type 0
TransferId = Uuid

abbrev pub ContentHash : Type 0
ContentHash = Bytes

pub data ClipboardFormat : Type 0 where
  text html rtf png files : ClipboardFormat

pub data ClipboardContent : Type 0 where
  inline : Bytes → ClipboardContent
  blob : ContentHash → ℕ → ClipboardContent
  transfer : TransferId → ClipboardContent

pub record ClipboardEvent : Type 0 where
  pub id : Uuid
  pub origin : DeviceId
  pub timestamp : HybridTimestamp
  pub format : ClipboardFormat
  pub content : ClipboardContent

pub record TransferEntry : Type 0 where
  pub relative_path : Text
  pub size : ℕ
  pub hash : ContentHash

pub record TransferManifest : Type 0 where
  pub id : TransferId
  pub origin : DeviceId
  pub name : Text
  pub entries : List TransferEntry

pub record TransferChunk : Type 0 where
  pub transfer_id : TransferId
  pub entry_index : ℕ
  pub offset : ℕ
  pub bytes : Bytes

pub record BlobChunk : Type 0 where
  pub hash : ContentHash
  pub offset : ℕ
  pub bytes : Bytes
  pub complete : Bool

pub record DeviceInfo : Type 0 where
  pub id : DeviceId
  pub name : Text
  pub platform : Text
  pub protocol_versions : List ℕ

pub data Message : Type 0 where
  hello : DeviceInfo → Message
  clipboard : ClipboardEvent → Message
  blob_request : ContentHash → ℕ → Message
  blob_chunk : BlobChunk → Message
  transfer_offer : TransferManifest → Message
  transfer_chunk : TransferChunk → Message
  transfer_resume : TransferId → List ℕ → Message
  acknowledge : Uuid → Message
  cancel_transfer : TransferId → Message

pub data ProtocolError : Type 0 where
  unsafe_path : Text → ProtocolError
  missing_name empty_transfer : ProtocolError

-- `Result<(), ProtocolError>`: `none` is `Ok(())`.
abbrev pub Checked : Type 0
Checked = Option ProtocolError

unfoldable pub is_unsafe : Component → Bool
is_unsafe parent_dir = true
is_unsafe root_dir = true
is_unsafe (prefix p) = true
is_unsafe cur_dir = false
is_unsafe (normal n) = false

unfoldable pub any_unsafe : List Component → Bool
unfolding is_unsafe
any_unsafe [] = false
any_unsafe (c ∷ cs) = is_unsafe c || any_unsafe cs

-- `TransferEntry::validate`
pub validate_entry : TransferEntry → Checked
unfolding any_unsafe
validate_entry self =
    if is_empty self.relative_path
      || is_absolute self.relative_path
      || any_unsafe (components self.relative_path)
    then some (unsafe_path self.relative_path)
    else none

validate_entries : List TransferEntry → Checked
unfolding validate_entry
validate_entries [] = none
validate_entries (e ∷ es) = elim (validate_entry e) [
  | some error ↦ some error
  | none ↦ validate_entries es
]

-- `TransferManifest::validate`
unfoldable pub validate : TransferManifest → Checked
unfolding validate_entries
validate self =
    if is_empty (trim self.name)
    then some missing_name
    else if is_empty self.entries
    then some empty_transfer
    else validate_entries self.entries
