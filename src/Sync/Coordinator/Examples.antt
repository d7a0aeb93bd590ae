-- ===== src/Sync/Coordinator/Examples.antt =====
-- `ClipboardSync` of crates/sync/src/lib.rs on examples: a desktop clipboard that holds a value, a
-- history and a blob store as lists, and the digest's input as the digest.
use superspace.Base.{
  ℕ, ◌≡◌, ◌≢◌, refl, Bool, true, false, Option, none, some, List, [], ◌∷◌, ◌++◌, arith,
  if◌then◌else◌, map, leb, ◌&&◌, ◌+◌, ◌==◌,
}
use superspace.Base.Int.{pos}
use superspace.Base.Bytes.{Bytes}
use superspace.Base.Result.{ok, err}
use superspace.Base.Text.{Text}
use superspace.Protocol.Message.{ClipboardEvent, ClipboardFormat, ClipboardContent}
use superspace.Network.Replication.{ReplicationLedger, ApplyDecision, queue_of, key_of}
use superspace.Network.Replication
use superspace.Network.Replication.Invariant.{new-Inv}
use superspace.Platform.Clipboard.{
  ClipboardValue, ClipboardError, unavailable, Backend, ClipboardContext, ClipboardCapturePolicy,
  CaptureDisposition, assess, new_policy,
}
use superspace.Storage.Entry.{ClipboardEntry}
use superspace.Sync.Codec.{SyncError, Png, clipboard, content_mismatch, unexpected_content}
use superspace.Sync.Parts.{ClipboardSync, Services}
use superspace.Sync.Frames.{KeepsReplication}
use superspace.Sync.Coordinator.{
  SyncOutcome, applied, PublishedTransfer, poll_local_with_context, apply_ready, receive_blob,
  receive_files,
}
use superspace.Sync.Coordinator.Capture.{poll_local_excluded, poll_local_sensitive}
use superspace.Sync.Coordinator.Publication.{Published, poll_local-Published}
use superspace.Sync.Coordinator.Receipt.{
  receive_blob_checked, receive_files_checked, apply_ready_refused,
}
use superspace.Sync.Coordinator.Release.{preview-apply_ready, apply_ready_duplicate}

abbrev holding : Backend ClipboardValue
holding = record { read = λ b. (b, ok b); write = λ v b. (v, ok tt) }

abbrev locked : Backend ClipboardValue
locked = record { read = λ b. (b, ok b); write = λ v b. (b, err unavailable) }

abbrev no_png : Png
no_png = record { write_image = λ w h r. none; read_info = λ limit bytes. none }

abbrev services_of :
    Backend ClipboardValue → Bool → Services ClipboardValue (List ClipboardEntry) (List Bytes)
services_of os debug = record {
  os = os;
  insert = λ entry history. (entry ∷ history, ok true);
  put = λ bytes blobs. (bytes ∷ blobs, some bytes);
  hash = λ bytes. bytes;
  png = no_png;
  to_lowercase = λ t. t;
  debug_assertions = debug;
}

abbrev released : Services ClipboardValue (List ClipboardEntry) (List Bytes)
released = services_of holding false

abbrev hi : Text
hi = b'h' ∷ b'i' ∷ []

abbrev app : Text
app = b'k' ∷ b'e' ∷ b'y' ∷ []

abbrev policy : ClipboardCapturePolicy
policy = record { excluded_applications = app ∷ [] }

-- Device 1, whose clipboard holds "hi".
abbrev start : ClipboardSync ClipboardValue (List ClipboardEntry) (List Bytes)
start = record {
  local_device = 1;
  monitor = record { backend = ClipboardValue.text hi; last_digest = none };
  ledger = Replication.new 1 0;
  history = [];
  blobs = [];
}

abbrev from_app : ClipboardContext
from_app = record { application_id = some app; sensitive = false }

abbrev private_copy : ClipboardContext
private_copy = record { application_id = none; sensitive = true }

abbrev plain_copy : ClipboardContext
plain_copy = record { application_id = none; sensitive = false }

poll_local_excluded_example :
    let (s', result) =
      poll_local_with_context released 7 100 (2 ∷ []) (pos 900) policy from_app start in
    (s'.history ≡ [])
    × (s'.blobs ≡ [])
    × (s'.ledger ≡ Replication.new 1 0)
    × ((e : ClipboardEvent) → result ≢ ok (some e))
unfolding assess
poll_local_excluded_example =
    poll_local_excluded released 7 100 (2 ∷ []) (pos 900) policy from_app start refl

poll_local_sensitive_example :
    let (s', result) =
      poll_local_with_context released 7 100 (2 ∷ []) (pos 900) policy private_copy start in
    KeepsReplication start s' × ((e : ClipboardEvent) → result ≢ ok (some e))
unfolding assess
poll_local_sensitive_example =
    poll_local_sensitive released 7 100 (2 ∷ []) (pos 900) policy private_copy start refl

abbrev copied : ClipboardEvent
copied = record {
  id = 7;
  origin = 1;
  timestamp = record { physical_millis = 100; logical = 0 };
  format = ClipboardFormat.text;
  content = ClipboardContent.inline hi;
}

abbrev after_copy : ClipboardSync ClipboardValue (List ClipboardEntry) (List Bytes)
after_copy = (poll_local_with_context released 7 100 (2 ∷ []) (pos 900) policy plain_copy start).0

hi_copied :
    poll_local_with_context released 7 100 (2 ∷ []) (pos 900) policy plain_copy start
    ≡ (after_copy, ok (some copied))
unfolding poll_local_with_context superspace.Sync.Parts.poll_monitor
    superspace.Platform.Clipboard.poll superspace.Platform.Clipboard.digest_input assess
    superspace.Sync.Codec.encode_value superspace.Sync.Parts.local_event
    superspace.Sync.Parts.persist Replication.record_local Replication.next_timestamp
    Replication.new superspace.Protocol.Clock.tick superspace.Base.Text.as_bytes
hi_copied = refl

poll_local-Published_example :
    (assess (λ t. t) policy plain_copy ≡ CaptureDisposition.normal)
    × Published released start after_copy copied 7 (2 ∷ []) (pos 900)
unfolding Replication.new
poll_local-Published_example =
    poll_local-Published released 7 100 (2 ∷ []) (pos 900) policy plain_copy start after_copy copied
      refl hi_copied

-- Device 2's copy of "hi".
abbrev remote : ClipboardEvent
remote = record copied { id = 20; origin = 2 }

abbrev announced : ClipboardEvent
announced = record remote { content = ClipboardContent.blob hi 2 }

receive_blob_checked_example :
    receive_blob released announced (b'h' ∷ []) 100 start ≡ (start, err content_mismatch)
receive_blob_checked_example =
    receive_blob_checked released announced (b'h' ∷ []) 100 start (λ h. ground arith)

abbrev finished : PublishedTransfer
finished = record { id = 5; origin = 2; destination = b'/' ∷ [] }

abbrev offered : ClipboardEvent
offered = record remote { format = ClipboardFormat.files; content = ClipboardContent.transfer 6 }

receive_files_checked_example :
    receive_files released offered finished 100 start ≡ (start, err unexpected_content)
receive_files_checked_example =
    receive_files_checked released offered finished 100 start (λ h. ground arith)

remote_is_new : Replication.preview (Replication.new 1 0) remote ≡ ApplyDecision.apply
unfolding Replication.preview Replication.new
remote_is_new = refl

apply_ready_refused_example :
    let (s', result) =
      apply_ready (services_of locked true) remote (ClipboardValue.text hi) hi 100 start in
    (result ≡ err (clipboard unavailable))
    × (s'.history ≡ [])
    × (s'.blobs ≡ [])
    × (s'.ledger ≡ Replication.new 1 0)
    × (s'.monitor.last_digest ≡ none)
unfolding Replication.preview superspace.Sync.Parts.apply_to_monitor
    superspace.Platform.Clipboard.apply_remote superspace.Platform.Clipboard.digest_input
apply_ready_refused_example =
    apply_ready_refused (services_of locked true) remote (ClipboardValue.text hi) hi 100 start
      (clipboard unavailable) remote_is_new refl

abbrev after_apply : Bool → ClipboardSync ClipboardValue (List ClipboardEntry) (List Bytes)
after_apply debug =
    (apply_ready (services_of holding debug) remote (ClipboardValue.text hi) hi 100 start).0

remote_applied :
    (debug : Bool)
    → apply_ready (services_of holding debug) remote (ClipboardValue.text hi) hi 100 start
      ≡ (after_apply debug, ok applied)
unfolding apply_ready Replication.preview Replication.new superspace.Platform.Clipboard.apply_remote
    superspace.Platform.Clipboard.digest_input
remote_applied true = refl
remote_applied false = refl

preview-apply_ready_example :
    (Replication.preview (after_apply false).ledger remote ≡ ApplyDecision.apply)
    × ((after_apply false).ledger ≡ Replication.new 1 0)
preview-apply_ready_example =
    preview-apply_ready released remote (ClipboardValue.text hi) hi 100 start (after_apply false)
      (new-Inv 1 0) (omega arith) (unfold Replication.new in omega arith) remote_is_new
      (remote_applied false)

abbrev seen_before : ClipboardSync ClipboardValue (List ClipboardEntry) (List Bytes)
seen_before = record start { ledger = (Replication.receive (Replication.new 1 0) remote 90).0 }

remote_is_known : Replication.preview seen_before.ledger remote ≡ ApplyDecision.duplicate
unfolding Replication.preview Replication.receive Replication.new
remote_is_known = refl

apply_ready_duplicate_example :
    let (s', result) = apply_ready released remote (ClipboardValue.text hi) hi 100 seen_before in
    (result ≡ ok SyncOutcome.duplicate)
    × (s'.monitor ≡ seen_before.monitor)
    × (s'.history ≡ [])
    × (s'.blobs ≡ [])
    × KeepsReplication seen_before s'
apply_ready_duplicate_example =
    apply_ready_duplicate released remote (ClipboardValue.text hi) hi 100 seen_before
      remote_is_known
