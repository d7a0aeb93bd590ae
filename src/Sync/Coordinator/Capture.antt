-- ===== src/Sync/Coordinator/Capture.antt =====
-- Capture of a local copy (crates/sync/src/lib.rs): what an excluded, a sensitive and a normal copy
-- leave in the history and in the replay queues.
use superspace.Base.{
  ℕ, ◌≡◌, ◌≢◌, refl, ap, ◌∙◌, true, Option, none, some, inl, inr, List, arith, Bool-cases,
}
use superspace.Base.Int.{ℤ}
use superspace.Base.Text.{Text}
use superspace.Base.Result.{Result, ok, err, Result-cases}
use superspace.Protocol.Message.{Uuid, DeviceId, ClipboardEvent}
use superspace.Platform.Clipboard.{
  ClipboardValue, ClipboardObservation, ClipboardCapturePolicy, ClipboardContext,
  CaptureDisposition, assess,
}
use superspace.Sync.Codec.{SyncError, encode_value}
use superspace.Sync.Parts.{ClipboardSync, Services, poll_monitor, local_event, is_files}
use superspace.Sync.Frames.{
  KeepsReplication, KeepsReplication-trans, persist-OnlyStores, local_event-Keeps,
}
use superspace.Sync.Coordinator.{poll_local_with_context, capture, consider, observed}

module _ {B H D : Type 0} (services : Services B H D) where
  -- Reading the clipboard touches only the monitor.
  pub poll_monitor_frame :
      (s : ClipboardSync B H D)
      → KeepsReplication s (poll_monitor services s).0
        × ((poll_monitor services s).0.history ≡ s.history)
        × ((poll_monitor services s).0.blobs ≡ s.blobs)
        × ((poll_monitor services s).0.ledger ≡ s.ledger)
  unfolding poll_monitor
  poll_monitor_frame s = (ground arith, ground arith, ground arith, ground arith)

  observed_excluded :
      (id : Uuid) (now : ℕ) (peers : List DeviceId) (expires : ℤ) (policy : ClipboardCapturePolicy)
      (context : ClipboardContext) (r : Result SyncError (Option ClipboardObservation))
      (s : ClipboardSync B H D)
      → assess services.to_lowercase policy context ≡ CaptureDisposition.exclude
      → ((observed services id now peers expires policy context r s).0 ≡ s)
        × ((e : ClipboardEvent)
            → (observed services id now peers expires policy context r s).1 ≢ ok (some e))
  unfolding observed
  observed_excluded id now peers expires policy context (err x) s h = (refl, λ e. ground arith)
  observed_excluded id now peers expires policy context (ok none) s h = (refl, λ e. ground arith)
  observed_excluded id now peers expires policy context (ok (some o)) s h =
      rw h (refl, λ e. ground arith)

  -- A copy from an excluded application enters neither the history nor the blobs nor the ledger,
  -- and no event comes of it.
  pub poll_local_excluded :
      (id : Uuid) (now : ℕ) (peers : List DeviceId) (expires : ℤ) (policy : ClipboardCapturePolicy)
      (context : ClipboardContext) (s : ClipboardSync B H D)
      → assess services.to_lowercase policy context ≡ CaptureDisposition.exclude
      → let (s', result) = poll_local_with_context services id now peers expires policy context s in
        (s'.history ≡ s.history)
        × (s'.blobs ≡ s.blobs)
        × (s'.ledger ≡ s.ledger)
        × ((e : ClipboardEvent) → result ≢ ok (some e))
  unfolding poll_local_with_context
  poll_local_excluded id now peers expires policy context s h =
      let (s1, r) = poll_monitor services s in
      let (_, history, blobs, ledger) = poll_monitor_frame s in
      let (same, silent) = observed_excluded id now peers expires policy context r s1 h in
      (
        ap (λ t. t.history) same ∙ history,
        ap (λ t. t.blobs) same ∙ blobs,
        ap (λ t. t.ledger) same ∙ ledger,
        silent,
      )

  capture_sensitive :
      (id : Uuid) (now : ℕ) (peers : List DeviceId) (expires : ℤ) (a : Option Text)
      (v : ClipboardValue) (s : ClipboardSync B H D)
      → KeepsReplication s (capture services id now peers expires true a v s).0
        × ((e : ClipboardEvent)
            → (capture services id now peers expires true a v s).1 ≢ ok (some e))
  unfolding capture
  capture_sensitive id now peers expires a v s = elim (Result-cases (encode_value services.png v)) [
    | inr (x, e) ↦ (ground (arith, e), λ ev k. ground (arith, e))
    | inl (encoded, e) ↦
        let (s1, r) = local_event services id now encoded s in
        let made = local_event-Keeps services id now encoded s in
        elim (Result-cases r) [
          | inr (x, f) ↦ (ground (arith, e, f, made), λ ev k. ground (arith, e, f))
          | inl (event, f) ↦
              let stored = persist-OnlyStores services event encoded.bytes (some v) a true s1 in
              (ground (arith, e, f, made, stored), λ ev k. ground (arith, e, f))
        ]
  ]

  pub consider_sensitive :
      (id : Uuid) (now : ℕ) (peers : List DeviceId) (expires : ℤ) (context : ClipboardContext)
      (v : ClipboardValue) (s : ClipboardSync B H D)
      → let (s', result) =
          consider services id now peers expires context CaptureDisposition.sensitive v s in
        KeepsReplication s s' × ((e : ClipboardEvent) → result ≢ ok (some e))
  unfolding consider
  consider_sensitive id now peers expires context v s =
      let (kept, silent) = capture_sensitive id now peers expires context.application_id v s in
      elim (Bool-cases (is_files services v)) [
        | inl files ↦ (ground (arith, files), λ e k. ground (arith, files))
        | inr other ↦ (ground (arith, other, kept), λ e k. silent e (ground (arith, other, k)))
      ]

  observed_sensitive :
      (id : Uuid) (now : ℕ) (peers : List DeviceId) (expires : ℤ) (policy : ClipboardCapturePolicy)
      (context : ClipboardContext) (r : Result SyncError (Option ClipboardObservation))
      (s : ClipboardSync B H D)
      → assess services.to_lowercase policy context ≡ CaptureDisposition.sensitive
      → KeepsReplication s (observed services id now peers expires policy context r s).0
        × ((e : ClipboardEvent)
            → (observed services id now peers expires policy context r s).1 ≢ ok (some e))
  unfolding observed
  observed_sensitive id now peers expires policy context (err x) s h =
      (ground arith, λ e. ground arith)
  observed_sensitive id now peers expires policy context (ok none) s h =
      (ground arith, λ e. ground arith)
  observed_sensitive id now peers expires policy context (ok (some o)) s h =
      rw h (consider_sensitive id now peers expires context o.value s)

  -- A sensitive copy never reaches a peer: the queues, the current event and the seen ids stay as
  -- they were, and no event comes of it, whether or not it could be stored.
  pub poll_local_sensitive :
      (id : Uuid) (now : ℕ) (peers : List DeviceId) (expires : ℤ) (policy : ClipboardCapturePolicy)
      (context : ClipboardContext) (s : ClipboardSync B H D)
      → assess services.to_lowercase policy context ≡ CaptureDisposition.sensitive
      → let (s', result) = poll_local_with_context services id now peers expires policy context s in
        KeepsReplication s s' × ((e : ClipboardEvent) → result ≢ ok (some e))
  unfolding poll_local_with_context
  poll_local_sensitive id now peers expires policy context s h =
      let (s1, r) = poll_monitor services s in
      let (frame, _, _, _) = poll_monitor_frame s in
      let (kept, silent) = observed_sensitive id now peers expires policy context r s1 h in
      (KeepsReplication-trans s s1 _ frame kept, silent)
