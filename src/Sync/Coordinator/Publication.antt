-- ===== src/Sync/Coordinator/Publication.antt =====
-- A local copy that is published (crates/sync/src/lib.rs): what the event is, and who is owed it.
use superspace.Base.{
  ℕ, ◌≡◌, refl, sym, ap, ◌∙◌, false, Option, none, some, inl, inr, List, [], ◌++◌, arith, ◌==◌,
  if◌then◌else◌, Bool-cases,
}
use superspace.Base.Int.{ℤ}
use superspace.Base.Text.{Text}
use superspace.Base.Result.{Result, ok, err, Result-cases}
use superspace.Protocol.Message.{Uuid, DeviceId, ClipboardEvent}
use superspace.Network.Replication.{ReplicationLedger, PendingEvent, queue_of, key_of}
use superspace.Network.Replication
use superspace.Network.Replication.Pending.{record_local_lem, count, copies}
use superspace.Platform.Clipboard.{
  ClipboardValue, ClipboardObservation, ClipboardCapturePolicy, ClipboardContext,
  CaptureDisposition, assess,
}
use superspace.Sync.Codec.{SyncError, EncodedValue, encode_value}
use superspace.Sync.Parts.{
  ClipboardSync, Services, persist, poll_monitor, local_event, record_event, is_files,
}
use superspace.Sync.Frames.{persist-OnlyStores, local_event-Keeps}
use superspace.Sync.Coordinator.{poll_local_with_context, capture, consider, observed, publish}
use superspace.Sync.Coordinator.Capture.{poll_monitor_frame, consider_sensitive}

module _ {B H D : Type 0} (services : Services B H D) where
  -- The event is this device's, with the given id; it is current, and it waits at the end of the
  -- queue of each named peer, once for each time that it is named; nobody else is owed it.
  pub record Published (s s' : ClipboardSync B H D) (e : ClipboardEvent) (id : Uuid)
      (peers : List DeviceId) (expires : ℤ) : Type 0 where
    pub same_id : e.id ≡ id
    pub own : e.origin ≡ s.local_device
    pub current : s'.ledger.current ≡ some (key_of e)
    pub owed :
        (j : DeviceId)
        → queue_of j s'.ledger.pending
          ≡ queue_of j s.ledger.pending
            ++ (if j == s.local_device
                then []
                else copies (record { event = e; expires_at = expires }) (count j peers))

  publish_lem :
      (e : ClipboardEvent) (peers : List DeviceId) (expires : ℤ) (s : ClipboardSync B H D)
      → s.ledger.local_device ≡ s.local_device
      → e.origin ≡ s.local_device
      → (s' : ClipboardSync B H D) × (publish services false e peers expires s ≡ (s', ok (some e)))
        × Published s s' e e.id peers expires
  unfolding publish record_event
  publish_lem e peers expires s same own = elim (record_local_lem s.ledger e peers expires) [
    | inl (foreign, _) ↦ absurd (foreign (own ∙ sym same))
    | inr (_, (l, done, current, owed)) ↦ (
      record s { ledger = l },
      ground (arith, done),
      record { same_id = refl; own = own; current = current; owed = λ j. rw (← same) (owed j) },
    )
  ]

  local_event_own :
      (id : Uuid) (now : ℕ) (v : EncodedValue) (s s' : ClipboardSync B H D) (e : ClipboardEvent)
      → local_event services id now v s ≡ (s', ok e)
      → (e.id ≡ id) × (e.origin ≡ s.local_device) × (s'.ledger.local_device ≡ s.ledger.local_device)
  unfolding local_event Replication.next_timestamp
  local_event_own id now v s s' e h = (ground arith, ground arith, ground arith)

  -- The queues that publication starts from.
  record Starts (s t : ClipboardSync B H D) : Type 0 where
    same_device : t.local_device ≡ s.local_device
    same_ledger_device : t.ledger.local_device ≡ s.ledger.local_device
    same_pending : t.ledger.pending ≡ s.ledger.pending

  publish-Published :
      (e f : ClipboardEvent) (id : Uuid) (peers : List DeviceId) (expires : ℤ)
      (s t s' : ClipboardSync B H D)
      → s.ledger.local_device ≡ s.local_device
      → Starts s t
      → (e.id ≡ id) × (e.origin ≡ s.local_device)
      → publish services false e peers expires t ≡ (s', ok (some f))
      → Published s s' f id peers expires
  publish-Published e f id peers expires s t s' same start (named, own) h =
      let (t', done, p) =
        publish_lem e peers expires t (start.same_ledger_device ∙ same ∙ sym start.same_device)
          (own ∙ sym start.same_device) in
      let ends : t' ≡ s' = ap (λ r. r.0) (sym done ∙ h) in
      let event : e ≡ f = ground (arith, done, h) in
      record {
        same_id = ap (λ x. x.id) (sym event) ∙ named;
        own = ap (λ x. x.origin) (sym event) ∙ own;
        current = rw (← ends, ← event) p.current;
        owed = λ j. rw (← ends, ← event, ← start.same_device, ← start.same_pending) (p.owed j);
      }

  capture-Published :
      (id : Uuid) (now : ℕ) (peers : List DeviceId) (expires : ℤ) (a : Option Text)
      (v : ClipboardValue) (s s' : ClipboardSync B H D) (f : ClipboardEvent)
      → s.ledger.local_device ≡ s.local_device
      → capture services id now peers expires false a v s ≡ (s', ok (some f))
      → Published s s' f id peers expires
  unfolding capture
  capture-Published id now peers expires a v s s' f same h =
      elim (Result-cases (encode_value services.png v)) [
        | inr (x, e) ↦ absurd (ground (arith, e, h))
        | inl (encoded, e) ↦
            let (s1, r) = local_event services id now encoded s in
            elim (Result-cases r) [
              | inr (x, k) ↦ absurd (ground (arith, e, k, h))
              | inl (event, k) ↦
                  let made = local_event-Keeps services id now encoded s in
                  let own = local_event_own id now encoded s s1 event (ground (arith, k)) in
                  let s2 = (persist services event encoded.bytes (some v) a false s1).0 in
                  let stores =
                    persist-OnlyStores services event encoded.bytes (some v) a false s1 in
                  publish-Published event f id peers expires s s2 s' same
                    (record {
                      same_device = stores.same_device ∙ made.0.same_device;
                      same_ledger_device = ap (λ l. l.local_device) stores.same_ledger ∙ own.2;
                      same_pending = ap (λ l. l.pending) stores.same_ledger ∙ made.0.same_pending;
                    })
                    (own.0, own.1) (ground (arith, e, k, h))
            ]
      ]

  consider_published :
      (id : Uuid) (now : ℕ) (peers : List DeviceId) (expires : ℤ) (context : ClipboardContext)
      (d : CaptureDisposition) (v : ClipboardValue) (s s' : ClipboardSync B H D)
      (f : ClipboardEvent)
      → consider services id now peers expires context d v s ≡ (s', ok (some f))
      → (d ≡ CaptureDisposition.normal)
        × (capture services id now peers expires false context.application_id v s
            ≡ (s', ok (some f)))
  consider_published id now peers expires context CaptureDisposition.exclude v s s' f h =
      unfold consider in absurd (ground (arith, h))
  consider_published id now peers expires context CaptureDisposition.normal v s s' f h =
      unfold consider in
      elim (Bool-cases (is_files services v)) [
        | inl files ↦ absurd (ground (arith, files, h))
        | inr other ↦ (refl, ground (arith, other, h))
      ]
  consider_published id now peers expires context CaptureDisposition.sensitive v s s' f h =
      absurd ((consider_sensitive services id now peers expires context v s).1 f (ap (λ r. r.1) h))

  observed-Published :
      (id : Uuid) (now : ℕ) (peers : List DeviceId) (expires : ℤ) (policy : ClipboardCapturePolicy)
      (context : ClipboardContext) (r : Result SyncError (Option ClipboardObservation))
      (s s' : ClipboardSync B H D) (f : ClipboardEvent)
      → s.ledger.local_device ≡ s.local_device
      → observed services id now peers expires policy context r s ≡ (s', ok (some f))
      → (assess services.to_lowercase policy context ≡ CaptureDisposition.normal)
        × Published s s' f id peers expires
  unfolding observed
  observed-Published id now peers expires policy context (err x) s s' f same h =
      absurd (ground (arith, h))
  observed-Published id now peers expires policy context (ok none) s s' f same h =
      absurd (ground (arith, h))
  observed-Published id now peers expires policy context (ok (some o)) s s' f same h =
      let (normal, captured) = consider_published id now peers expires context _ o.value s s' f h in
      (
        normal,
        capture-Published id now peers expires context.application_id o.value s s' f same captured,
      )

  -- A poll gives an event only for a copy that is neither excluded nor sensitive. The event is this
  -- device's, has the fresh id and becomes the current one, and each named peer is owed it once for
  -- each time that it is named, behind what it was owed; this device and the others are not.
  pub poll_local-Published :
      (id : Uuid) (now : ℕ) (peers : List DeviceId) (expires : ℤ) (policy : ClipboardCapturePolicy)
      (context : ClipboardContext) (s s' : ClipboardSync B H D) (e : ClipboardEvent)
      → s.ledger.local_device ≡ s.local_device
      → poll_local_with_context services id now peers expires policy context s ≡ (s', ok (some e))
      → (assess services.to_lowercase policy context ≡ CaptureDisposition.normal)
        × Published s s' e id peers expires
  unfolding poll_local_with_context poll_monitor
  poll_local-Published id now peers expires policy context s s' e same h =
      let (s1, r) = poll_monitor services s in
      let (frame, _, _, ledger) = poll_monitor_frame services s in
      let (normal, p) =
        observed-Published id now peers expires policy context r s1 s' e
          (ap (λ l. l.local_device) ledger ∙ same ∙ sym frame.same_device) h in
      (
        normal,
        record {
          same_id = p.same_id;
          own = p.own ∙ frame.same_device;
          current = p.current;
          owed = λ j. rw (← frame.same_device, ← frame.same_pending) (p.owed j);
        },
      )
