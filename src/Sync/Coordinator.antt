-- ===== src/Sync/Coordinator.antt =====
-- `ClipboardSync` of crates/sync/src/lib.rs, method by method: capture of a local copy, receipt of a
-- peer's event, and the replay queue.
pub mod Capture
pub mod Publication
pub mod Receipt
pub mod Release
mod Examples
use superspace.Base.{
  ℕ, Bool, true, false, not, ◌&&◌, ◌||◌, Option, none, some, List, [], ◌∷◌, ◌==◌, if◌then◌else◌,
  length,
}
use superspace.Base.Int.{ℤ}
use superspace.Base.Bytes.{Bytes}
use superspace.Base.Result.{Result, ok, err}
use superspace.Base.Text.{Text, text_eq}
use superspace.Protocol.Message.{
  Uuid, DeviceId, TransferId, ContentHash, ClipboardFormat, ClipboardContent, ClipboardEvent,
}
use superspace.Network.Replication.{ApplyDecision}
use superspace.Network.Replication
use superspace.Platform.Clipboard.{
  ClipboardValue, ClipboardError, invalid_content, ClipboardContext, ClipboardCapturePolicy,
  CaptureDisposition, ClipboardObservation, digest_input, assess, new_policy,
}
use superspace.Platform.Clipboard
use superspace.Sync.Calls.{Action, ◌>>=◌, ◌>>◌, pure, pure_result, fail, get}
use superspace.Sync.Codec.{
  SyncError, clipboard, files_require_transfer, unexpected_content, content_mismatch, EncodedValue,
  encode_value, decode_value, encode_paths,
}
use superspace.Sync.Parts.{
  ClipboardSync, Services, Method, poll_monitor, apply_to_monitor, persist, local_event,
  next_timestamp, receive_event, record_event, is_files,
}

pub data SyncOutcome : Type 0 where
  applied duplicate superseded : SyncOutcome
  needs_blob : ContentHash → ℕ → SyncOutcome
  needs_transfer : TransferId → SyncOutcome

pub should_acknowledge : SyncOutcome → Bool
should_acknowledge applied = true
should_acknowledge SyncOutcome.duplicate = true
should_acknowledge SyncOutcome.superseded = true
should_acknowledge (needs_blob hash size) = false
should_acknowledge (needs_transfer id) = false

-- `PublishedTransfer` of crates/network/src/transfer.rs.
pub record PublishedTransfer : Type 0 where
  pub id : TransferId
  pub origin : DeviceId
  pub destination : Text

module _ {B H D : Type 0} (services : Services B H D) where
  open services use {hash, png, to_lowercase, debug_assertions}

  -- `ClipboardSync::new`
  pub new : DeviceId → ℕ → B → H → D → ClipboardSync B H D
  new local_device physical_millis backend history blobs = record {
    local_device = local_device;
    monitor = Clipboard.new_monitor hash (services.os) backend;
    ledger = Replication.new local_device physical_millis;
    history = history;
    blobs = blobs;
  }

  -- A sensitive copy is not queued for peers.
  publish : Bool → ClipboardEvent → List DeviceId → ℤ → Method services (Option ClipboardEvent)
  unfolding record_event
  publish true event peers expires_at = pure none
  publish false event peers expires_at = do
    record_event services event peers expires_at
    pure (some event)

  -- The part of `poll_local_with_context` behind the check for files.
  capture :
      Uuid
      → ℕ
      → List DeviceId
      → ℤ
      → Bool
      → Option Text
      → ClipboardValue
      → Method services (Option ClipboardEvent)
  unfolding publish
  capture fresh_id now_millis peers expires_at is_sensitive application value = do
    encoded ← pure_result (encode_value png value)
    event ← local_event services fresh_id now_millis encoded
    persist services event encoded.bytes (some value) application is_sensitive
    publish is_sensitive event peers expires_at

  -- The part behind the monitor.
  pub consider :
      Uuid
      → ℕ
      → List DeviceId
      → ℤ
      → ClipboardContext
      → CaptureDisposition
      → ClipboardValue
      → Method services (Option ClipboardEvent)
  unfolding is_files capture
  consider fresh_id now_millis peers expires_at context CaptureDisposition.exclude value = pure none
  consider fresh_id now_millis peers expires_at context CaptureDisposition.normal value =
      if is_files services value
      then fail files_require_transfer
      else capture fresh_id now_millis peers expires_at false context.application_id value
  consider fresh_id now_millis peers expires_at context CaptureDisposition.sensitive value =
      if is_files services value
      then fail files_require_transfer
      else capture fresh_id now_millis peers expires_at true context.application_id value

  -- What follows the poll of the monitor, by its result.
  observed :
      Uuid
      → ℕ
      → List DeviceId
      → ℤ
      → ClipboardCapturePolicy
      → ClipboardContext
      → Result SyncError (Option ClipboardObservation)
      → Method services (Option ClipboardEvent)
  unfolding consider
  observed fresh_id now_millis peers expires_at policy context (err error) = fail error
  observed fresh_id now_millis peers expires_at policy context (ok none) = pure none
  observed fresh_id now_millis peers expires_at policy context (ok (some observation)) =
      consider fresh_id now_millis peers expires_at context (assess to_lowercase policy context)
        observation.value

  pub poll_local_with_context :
      Uuid
      → ℕ
      → List DeviceId
      → ℤ
      → ClipboardCapturePolicy
      → ClipboardContext
      → Method services (Option ClipboardEvent)
  unfolding observed
  poll_local_with_context fresh_id now_millis peers expires_at policy context self =
      let (self', result) = poll_monitor services self in
      observed fresh_id now_millis peers expires_at policy context result self'

  pub poll_local : Uuid → ℕ → List DeviceId → ℤ → Method services (Option ClipboardEvent)
  unfolding poll_local_with_context
  poll_local fresh_id now_millis peers expires_at =
      poll_local_with_context fresh_id now_millis peers expires_at
        (record { excluded_applications = [] })
        (record { application_id = none; sensitive = false })

  -- `value.digest()?`
  check_digest : ClipboardValue → Result SyncError (Unit {0})
  check_digest value = elim (digest_input value) [
    | none ↦ err (clipboard invalid_content)
    | some _ ↦ ok tt
  ]

  pub record_local_files :
      Uuid → List Text → TransferId → ℕ → List DeviceId → ℤ → Method services ClipboardEvent
  unfolding check_digest next_timestamp persist record_event
  record_local_files fresh_id paths transfer_id now_millis peers expires_at = do
    let value = ClipboardValue.files paths
    pure_result (check_digest value)
    self ← get
    stamp ← next_timestamp services now_millis
    let event : ClipboardEvent = record {
      id = fresh_id;
      origin = self.local_device;
      timestamp = stamp;
      format = ClipboardFormat.files;
      content = ClipboardContent.transfer transfer_id;
    }
    persist services event (encode_paths value) none none false
    record_event services event peers expires_at
    pure event

  -- `debug_assert_eq!(self.ledger.receive(event, now_millis), Apply)`: nothing in a release build.
  assert_received : ClipboardEvent → ℕ → Method services (Unit {0})
  unfolding receive_event
  assert_received event now_millis =
      if debug_assertions then (receive_event services event now_millis >> pure tt) else pure tt

  apply_decided :
      ClipboardEvent → ClipboardValue → Bytes → ℕ → ApplyDecision → Method services SyncOutcome
  unfolding receive_event persist apply_to_monitor assert_received
  apply_decided event value persisted_bytes now_millis ApplyDecision.duplicate = do
    receive_event services event now_millis
    pure SyncOutcome.duplicate
  apply_decided event value persisted_bytes now_millis ApplyDecision.superseded = do
    receive_event services event now_millis
    persist services event persisted_bytes (some value) none false
    pure SyncOutcome.superseded
  apply_decided event value persisted_bytes now_millis ApplyDecision.apply = do
    apply_to_monitor services value
    persist services event persisted_bytes (some value) none false
    assert_received event now_millis
    pure applied

  pub apply_ready : ClipboardEvent → ClipboardValue → Bytes → ℕ → Method services SyncOutcome
  unfolding apply_decided
  apply_ready event value persisted_bytes now_millis self =
      apply_decided event value persisted_bytes now_millis (Replication.preview self.ledger event)
        self

  apply_bytes : ClipboardEvent → Bytes → ℕ → Method services SyncOutcome
  unfolding apply_ready
  apply_bytes event bytes now_millis = do
    value ← pure_result (decode_value png event.format bytes)
    apply_ready event value bytes now_millis

  receive_content : ClipboardContent → ClipboardEvent → ℕ → Method services SyncOutcome
  unfolding apply_bytes
  receive_content (ClipboardContent.inline bytes) event now_millis =
      apply_bytes event bytes now_millis
  receive_content (ClipboardContent.blob hash size) event now_millis = pure (needs_blob hash size)
  receive_content (ClipboardContent.transfer id) event now_millis = pure (needs_transfer id)

  pub receive : ClipboardEvent → ℕ → Method services SyncOutcome
  unfolding receive_content
  receive event now_millis = receive_content event.content event now_millis

  receive_blob_content : ClipboardContent → ClipboardEvent → Bytes → ℕ → Method services SyncOutcome
  unfolding apply_bytes
  receive_blob_content (ClipboardContent.blob expected size) event bytes now_millis =
      if not (length bytes == size) || not (text_eq (hash bytes) expected)
      then fail content_mismatch
      else apply_bytes event bytes now_millis
  receive_blob_content _ event bytes now_millis = fail unexpected_content

  pub receive_blob : ClipboardEvent → Bytes → ℕ → Method services SyncOutcome
  unfolding receive_blob_content
  receive_blob event bytes now_millis = receive_blob_content event.content event bytes now_millis

  is_files_format : ClipboardFormat → Bool
  is_files_format ClipboardFormat.files = true
  is_files_format _ = false

  is_transfer : TransferId → ClipboardContent → Bool
  is_transfer id (ClipboardContent.transfer expected) = expected == id
  is_transfer id _ = false

  pub receive_files : ClipboardEvent → PublishedTransfer → ℕ → Method services SyncOutcome
  unfolding check_digest apply_ready
  receive_files event transfer now_millis =
      if not (is_files_format event.format)
        || not (event.origin == transfer.origin)
        || not (is_transfer transfer.id event.content)
      then fail unexpected_content
      else do
        let value = ClipboardValue.files (transfer.destination ∷ [])
        pure_result (check_digest value)
        apply_ready event value (encode_paths value) now_millis

  pub pending_for : DeviceId → ℤ → Method services (List ClipboardEvent)
  pending_for peer now_millis self =
      let (ledger, events) = Replication.pending_for self.ledger peer now_millis in
      (record self { ledger = ledger }, ok events)

  pub acknowledge : DeviceId → Uuid → Method services Bool
  acknowledge peer event_id self =
      let (ledger, done) = Replication.acknowledge self.ledger peer event_id in
      (record self { ledger = ledger }, ok done)
