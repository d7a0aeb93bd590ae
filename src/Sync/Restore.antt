-- ===== src/Sync/Restore.antt =====
-- `restore_history_value` of crates/sync/src/lib.rs: a history entry and its blob become a value.
pub mod Pasting
mod Examples
use superspace.Base.{Option, none, some, if◌then◌else◌}
use superspace.Base.Bytes.{Bytes}
use superspace.Base.Result.{Result, ok, err, ◌>>=◌, ok_or, map_err}
use superspace.Base.Text.{Text, is_empty}
use superspace.Platform.Clipboard.{ClipboardValue}
use superspace.Storage.Entry.{ClipboardKind, ClipboardEntry}
use superspace.Storage.Blob.{BlobHash, BlobStore, parse, read}
use superspace.Sync.Codec.{
  SyncError, blob, unexpected_content, Png, decode_rich, decode_png, decode_paths,
}

restore_text : Option Text → Result SyncError ClipboardValue
restore_text none = err unexpected_content
restore_text (some t) = if is_empty t then err unexpected_content else ok (ClipboardValue.text t)

abbrev parse_hash : Option Text → Option BlobHash
parse_hash none = none
parse_hash (some t) = parse t

module _ (digest : Bytes → BlobHash) (png : Png) where
  -- The inner `match`, whose arm for text is not reached.
  restore_bytes : ClipboardKind → Bytes → Result SyncError ClipboardValue
  restore_bytes ClipboardKind.text bytes = err unexpected_content
  restore_bytes ClipboardKind.html bytes = do
    (plain, html) ← decode_rich bytes
    ok (ClipboardValue.html plain html)
  restore_bytes ClipboardKind.rtf bytes = do
    (plain, rtf) ← decode_rich bytes
    ok (ClipboardValue.rtf plain rtf)
  restore_bytes ClipboardKind.image bytes = decode_png png bytes
  restore_bytes ClipboardKind.files bytes = decode_paths bytes

  restore_blob : ClipboardKind → Option Text → BlobStore → Result SyncError ClipboardValue
  unfolding restore_bytes
  restore_blob kind blob_hash blobs = do
    hash ← ok_or (parse_hash blob_hash) unexpected_content
    bytes ← map_err (λ e. blob) (read digest blobs hash)
    restore_bytes kind bytes

  restore_kind :
      ClipboardKind → Option Text → Option Text → BlobStore → Result SyncError ClipboardValue
  unfolding restore_text restore_blob
  restore_kind ClipboardKind.text text blob_hash blobs = restore_text text
  restore_kind kind text blob_hash blobs = restore_blob kind blob_hash blobs

  pub restore_history_value : ClipboardEntry → BlobStore → Result SyncError ClipboardValue
  unfolding restore_kind
  restore_history_value entry blobs = restore_kind entry.kind entry.text entry.blob_hash blobs
