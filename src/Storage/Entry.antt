-- ===== src/Storage/Entry.antt =====
-- crates/storage/src/clipboard.rs: the entries of the clipboard history and the errors of its store.
use superspace.Base.{Bool, Option}
use superspace.Base.Int.{ℤ}
use superspace.Base.Text.{Text}
use superspace.Protocol.Message.{Uuid}

pub data ClipboardKind : Type 0 where
  text html rtf image files : ClipboardKind

pub record ClipboardSource : Type 0 where
  pub application_id : Option Text
  pub device_id : Option Uuid

pub record ClipboardEntry : Type 0 where
  pub id : Uuid
  pub kind : ClipboardKind
  pub text : Option Text
  pub blob_hash : Option Text
  pub source : ClipboardSource
  pub created_at : ℤ
  pub pinned_at : Option ℤ
  pub sensitive : Bool

pub data StorageError : Type 0 where
  database unsupported_kind invalid_entry : StorageError
