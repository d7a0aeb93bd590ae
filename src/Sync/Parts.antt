-- ===== src/Sync/Parts.antt =====
-- `ClipboardSync` of crates/sync/src/lib.rs: a local copy is captured, stored and queued for peers,
-- and a peer's event is checked, applied and stored.
-- A method is a function of the state that returns the state and a result; what it wrote before it
-- failed stays written. The desktop clipboard, the history and the blob store are interfaces.
-- `Uuid::new_v4` is an argument. `debug_assertions` says how the program was built: the argument of
-- `debug_assert_eq!` runs only in a build that has them, and the release profile of Cargo.toml has
-- not.
use superspace.Base.{
  ℕ, ◌^◌, ◌*◌, ◌-◌, min, Bool, true, false, Option, none, some, List, leb, ◌==◌, if◌then◌else◌,
  length,
}
use superspace.Base.Int.{ℤ, pos}
use superspace.Base.Bytes.{Bytes}
use superspace.Base.Result.{Result, ok, err}
use superspace.Base.Text.{Text, from_utf8}
use superspace.Protocol.Clock.{HybridTimestamp}
use superspace.Protocol.Message.{
  Uuid, DeviceId, ClipboardFormat, ClipboardContent, inline, ClipboardEvent,
}
use superspace.Network.Replication.{ReplicationLedger, ApplyDecision}
use superspace.Network.Replication
use superspace.Platform.Clipboard.{
  ClipboardValue, ClipboardContext, ClipboardCapturePolicy, CaptureDisposition, exclude, normal,
  ClipboardMonitor, ClipboardObservation, Backend,
}
use superspace.Platform.Clipboard
use superspace.Storage.Entry.{ClipboardKind, ClipboardEntry, StorageError}
use superspace.Sync.Calls.{Action, Stored, ◌>>=◌, pure, pure_result, get, lift, forget, or_fail}
use superspace.Sync.Codec.{
  SyncError, clipboard, storage, blob, replication, unexpected_content, invalid_text, Png,
  EncodedValue, decode_value,
}

abbrev pub max_inline_clipboard_bytes : ℕ
max_inline_clipboard_bytes = 384 * 1024

abbrev i64_max : ℕ
i64_max = 2 ^ 63 - 1

pub record ClipboardSync (B H D : Type 0) : Type 0 where
  pub local_device : DeviceId
  pub monitor : ClipboardMonitor B
  pub ledger : ReplicationLedger
  pub history : H
  pub blobs : D

-- What the coordinator calls: the desktop clipboard, the history's `insert` (which reports whether
-- the entry is new), the blob store's `put` (the digest in hexadecimal, or an I/O error), the
-- hash, PNG, and the lower case of a text.
pub record Services (B H D : Type 0) : Type 0 where
  pub os : Backend B
  pub insert : ClipboardEntry → H → H × Result StorageError Bool
  pub put : Bytes → D → D × Option Text
  pub hash : Bytes → Bytes
  pub png : Png
  pub to_lowercase : Text → Text
  pub debug_assertions : Bool

module _ {B H D : Type 0} (services : Services B H D) where
  open services use {os, insert, put, hash, png, to_lowercase, debug_assertions}

  -- A method on the coordinator.
  abbrev pub Method : Type 0 → Type 0
  Method A = Action (ClipboardSync B H D) A

  unfoldable pub poll_monitor : Method (Option ClipboardObservation)
  poll_monitor self =
      let (monitor, result) = Clipboard.poll hash os self.monitor in
      (record self { monitor = monitor }, lift clipboard result)

  unfoldable pub apply_to_monitor : ClipboardValue → Method (Unit {0})
  apply_to_monitor value self =
      let (monitor, result) = Clipboard.apply_remote hash os self.monitor value in
      (record self { monitor = monitor }, lift clipboard result)

  unfoldable pub insert_history : ClipboardEntry → Method (Unit {0})
  insert_history entry self =
      let (history, result) = insert entry self.history in
      (record self { history = history }, forget (lift storage result))

  unfoldable pub put_blob : Bytes → Method Text
  put_blob bytes self =
      let (blobs, result) = put bytes self.blobs in
      (record self { blobs = blobs }, or_fail result blob)

  unfoldable pub next_timestamp : ℕ → Method HybridTimestamp
  next_timestamp now_millis self =
      let (ledger, stamp) = Replication.next_timestamp self.ledger now_millis in
      (record self { ledger = ledger }, ok stamp)

  unfoldable pub receive_event : ClipboardEvent → ℕ → Method ApplyDecision
  receive_event event now_millis self =
      let (ledger, decision) = Replication.receive self.ledger event now_millis in
      (record self { ledger = ledger }, ok decision)

  unfoldable pub record_event : ClipboardEvent → List DeviceId → ℤ → Method (Unit {0})
  record_event event peers expires_at self =
      elim (Replication.record_local self.ledger event peers expires_at) [
        | none ↦ (self, err replication)
        | some ledger ↦ (record self { ledger = ledger }, ok tt)
      ]

  -- The kind, the text and the blob that `persist` stores for an event.
  unfoldable pub text_of : Option ClipboardValue → Bytes → Result SyncError Text
  text_of (some (ClipboardValue.text t)) bytes = ok t
  text_of _ bytes = or_fail (from_utf8 bytes) invalid_text

  unfoldable pub plain_of : ClipboardValue → Result SyncError Text
  plain_of (ClipboardValue.html plain rich) = ok plain
  plain_of (ClipboardValue.rtf plain rich) = ok plain
  plain_of _ = err unexpected_content

  unfoldable pub decoded_or :
      Option ClipboardValue → ClipboardFormat → Bytes → Result SyncError ClipboardValue
  decoded_or (some value) format bytes = ok value
  decoded_or none format bytes = decode_value png format bytes

  unfoldable pub stored_rich :
      ClipboardKind → ClipboardFormat → Bytes → Option ClipboardValue → Method Stored
  unfolding plain_of decoded_or put_blob
  stored_rich kind format bytes decoded = do
    value ← pure_result (decoded_or decoded format bytes)
    text ← pure_result (plain_of value)
    hash ← put_blob bytes
    pure (record { kind = kind; text = some text; blob_hash = some hash })

  unfoldable pub stored_blob : ClipboardKind → Bytes → Method Stored
  unfolding put_blob
  stored_blob kind bytes = do
    hash ← put_blob bytes
    pure (record { kind = kind; text = none; blob_hash = some hash })

  unfoldable pub stored : ClipboardFormat → Bytes → Option ClipboardValue → Method Stored
  unfolding text_of stored_rich stored_blob
  stored ClipboardFormat.text bytes decoded = do
    text ← pure_result (text_of decoded bytes)
    pure (record { kind = ClipboardKind.text; text = some text; blob_hash = none })
  stored ClipboardFormat.html bytes decoded =
      stored_rich ClipboardKind.html ClipboardFormat.html bytes decoded
  stored ClipboardFormat.rtf bytes decoded =
      stored_rich ClipboardKind.rtf ClipboardFormat.rtf bytes decoded
  stored ClipboardFormat.png bytes decoded = stored_blob ClipboardKind.image bytes
  stored ClipboardFormat.files bytes decoded = stored_blob ClipboardKind.files bytes

  unfoldable pub entry_of : DeviceId → ClipboardEvent → Stored → Option Text → Bool → ClipboardEntry
  entry_of local_device event s source_application sensitive = record {
    id = event.id;
    kind = s.kind;
    text = s.text;
    blob_hash = s.blob_hash;
    source = record {
      application_id = source_application;
      device_id = if event.origin == local_device then none else some event.origin;
    };
    created_at = pos (min event.timestamp.physical_millis i64_max);
    pinned_at = none;
    sensitive = sensitive;
  }

  unfoldable pub persist :
      ClipboardEvent → Bytes → Option ClipboardValue → Option Text → Bool → Method (Unit {0})
  unfolding stored entry_of insert_history
  persist event bytes decoded source_application sensitive = do
    s ← stored event.format bytes decoded
    self ← get
    insert_history (entry_of self.local_device event s source_application sensitive)

  unfoldable pub content_of : Bytes → ClipboardContent
  content_of bytes =
      if leb (length bytes) max_inline_clipboard_bytes
      then inline bytes
      else ClipboardContent.blob (hash bytes) (length bytes)

  unfoldable pub local_event : Uuid → ℕ → EncodedValue → Method ClipboardEvent
  unfolding content_of next_timestamp
  local_event fresh_id now_millis encoded = do
    self ← get
    stamp ← next_timestamp now_millis
    pure (record {
      id = fresh_id;
      origin = self.local_device;
      timestamp = stamp;
      format = encoded.format;
      content = content_of encoded.bytes;
    })

  unfoldable pub is_files : ClipboardValue → Bool
  is_files (ClipboardValue.files paths) = true
  is_files _ = false
