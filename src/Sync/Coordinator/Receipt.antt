-- ===== src/Sync/Coordinator/Receipt.antt =====
-- Receipt of a peer's event (crates/sync/src/lib.rs): what is checked before anything is touched,
-- and what each outcome has done.
use superspace.Base.{ℕ, ◌≡◌, refl, true, inl, inr, arith, ◌==◌, Bool-cases, length}
use superspace.Base.Bytes.{Bytes}
use superspace.Base.Text.{text_eq, text_eq→≡}
use superspace.Base.Result.{Result, err, Result-cases}
use superspace.Protocol.Message.{
  ClipboardEvent, ClipboardContent, ClipboardFormat, inline, blob, transfer, files, TransferId,
}
use superspace.Network.Replication.{ReplicationLedger, ApplyDecision}
use superspace.Network.Replication
use superspace.Platform.Clipboard.{ClipboardValue, ClipboardError}
use superspace.Platform.Clipboard.Monitoring.{apply_remote_failed}
use superspace.Platform.Clipboard
use superspace.Sync.Codec.{SyncError, content_mismatch, unexpected_content}
use superspace.Sync.Parts.{ClipboardSync, Services, apply_to_monitor}
use superspace.Sync.Coordinator.{
  PublishedTransfer, apply_ready, receive_blob, receive_blob_content, receive_files,
  is_files_format, is_transfer,
}

module _ {B H D : Type 0} (services : Services B H D) where
  -- The bytes are what the event announces.
  abbrev pub Delivers : ClipboardContent → Bytes → Type 0
  Delivers (blob digest size) bytes = (length bytes ≡ size) × (services.hash bytes ≡ digest)
  Delivers _ bytes = ⊥

  -- The error for bytes that are not.
  abbrev pub refusal : ClipboardContent → SyncError
  refusal (blob digest size) = content_mismatch
  refusal _ = unexpected_content

  receive_blob_content_checked :
      (c : ClipboardContent) (e : ClipboardEvent) (bytes : Bytes) (now : ℕ)
      (s : ClipboardSync B H D)
      → ¬ Delivers c bytes
      → receive_blob_content services c e bytes now s ≡ (s, err (refusal c))
  unfolding receive_blob_content
  receive_blob_content_checked (inline b) e bytes now s bad = refl
  receive_blob_content_checked (transfer id) e bytes now s bad = refl
  receive_blob_content_checked (blob d n) e bytes now s bad =
      elim (Bool-cases (length bytes == n)) [
        | inr short ↦ rw short refl
        | inl sized ↦ elim (Bool-cases (text_eq (services.hash bytes) d)) [
          | inr differs ↦ rw (sized, differs) refl
          | inl same ↦ absurd (bad (ground arith, text_eq→≡ _ _ same))
        ]
      ]

  -- Downloaded bytes are used only if their number and digest are the event's; otherwise the call
  -- fails, with the error for the kind of content, and nothing at all changes.
  pub receive_blob_checked :
      (e : ClipboardEvent) (bytes : Bytes) (now : ℕ) (s : ClipboardSync B H D)
      → ¬ Delivers e.content bytes
      → receive_blob services e bytes now s ≡ (s, err (refusal e.content))
  unfolding receive_blob
  receive_blob_checked e bytes now s bad = receive_blob_content_checked e.content e bytes now s bad

  is_files : (f : ClipboardFormat) → is_files_format services f ≡ true → f ≡ files
  unfolding is_files_format
  is_files f h = ground arith

  same_transfer :
      (id : TransferId) (c : ClipboardContent) → is_transfer services id c ≡ true → c ≡ transfer id
  unfolding is_transfer
  same_transfer id c h = ground arith

  -- A finished transfer is used only for an event of the files format, of the transfer's origin and
  -- with the transfer's id; otherwise the call fails and nothing at all changes.
  pub receive_files_checked :
      (e : ClipboardEvent) (t : PublishedTransfer) (now : ℕ) (s : ClipboardSync B H D)
      → ¬ ((e.format ≡ files) × (e.origin ≡ t.origin) × (e.content ≡ transfer t.id))
      → receive_files services e t now s ≡ (s, err unexpected_content)
  unfolding receive_files
  receive_files_checked e t now s bad = elim (Bool-cases (is_files_format services e.format)) [
    | inr format ↦ rw format refl
    | inl format ↦ elim (Bool-cases (e.origin == t.origin)) [
      | inr origin ↦ rw (format, origin) refl
      | inl origin ↦ elim (Bool-cases (is_transfer services t.id e.content)) [
        | inr id ↦ rw (format, origin, id) refl
        | inl id ↦
            absurd (bad (is_files e.format format, ground arith, same_transfer t.id e.content id))
      ]
    ]
  ]

  -- A desktop clipboard that refuses the value stops the call before the history, the blobs and the
  -- replay state are touched; the suppressed digest stays, and the event can be tried again.
  pub apply_ready_refused :
      (e : ClipboardEvent) (v : ClipboardValue) (bytes : Bytes) (now : ℕ) (s : ClipboardSync B H D)
      (x : SyncError)
      → Replication.preview s.ledger e ≡ ApplyDecision.apply
      → (apply_to_monitor services v s).1 ≡ err x
      → let (s', result) = apply_ready services e v bytes now s in
        (result ≡ err x)
        × (s'.history ≡ s.history)
        × (s'.blobs ≡ s.blobs)
        × (s'.ledger ≡ s.ledger)
        × (s'.monitor.last_digest ≡ s.monitor.last_digest)
  unfolding apply_ready apply_to_monitor
  apply_ready_refused e v bytes now s x d h = elim (Result-cases monitored) [
    | inl (u, f) ↦ absurd (ground (arith, f, h))
    | inr (y, f) ↦
        ground (arith, d, f, h, apply_remote_failed services.hash services.os s.monitor v y f)
  ]
    where
      monitored : Result ClipboardError (Unit {0})
      monitored = (Clipboard.apply_remote services.hash services.os s.monitor v).1
