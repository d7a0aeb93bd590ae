-- ===== src/Sync/Coordinator/Release.antt =====
-- What `apply_ready` of crates/sync/src/lib.rs does to the replay state, by how it was built, and
-- what it leaves alone when the event is old.
use superspace.Base.{
  ℕ, ◌<◌, ◌≡◌, refl, false, none, some, inl, inr, [], arith, if◌then◌else◌, Bool-cases,
}
use superspace.Base.Bytes.{Bytes}
use superspace.Base.Result.{ok}
use superspace.Protocol.Message.{ClipboardEvent}
use superspace.Protocol.Clock.Laws.{IsU32}
use superspace.Network.Replication.{ReplicationLedger, ApplyDecision}
use superspace.Network.Replication
use superspace.Network.Replication.Invariant.{Inv, run}
use superspace.Network.Replication.Window.{receive_duplicate, preview-run_duplicate}
use superspace.Platform.Clipboard.{ClipboardValue}
use superspace.Sync.Parts.{ClipboardSync, Services, persist, apply_to_monitor, receive_event}
use superspace.Sync.Frames.{KeepsReplication, persist-OnlyStores}
use superspace.Sync.Coordinator.{SyncOutcome, applied, apply_decided, apply_ready, assert_received}

module _ {B H D : Type 0} (services : Services B H D) where
  apply_to_monitor-ledger :
      (v : ClipboardValue) (s : ClipboardSync B H D)
      → (apply_to_monitor services v s).0.ledger ≡ s.ledger
  unfolding apply_to_monitor
  apply_to_monitor-ledger v s = refl

  assert_received-ledger :
      (e : ClipboardEvent) (now : ℕ) (s : ClipboardSync B H D)
      → (assert_received services e now s).0.ledger
        ≡ (if services.debug_assertions then (Replication.receive s.ledger e now).0 else s.ledger)
  unfolding assert_received receive_event
  assert_received-ledger e now s = elim (Bool-cases services.debug_assertions) [
    | inl d ↦ rw d refl
    | inr r ↦ rw r refl
  ]

  apply_ready-ledger :
      (e : ClipboardEvent) (v : ClipboardValue) (bytes : Bytes) (now : ℕ)
      (s s' : ClipboardSync B H D)
      → Replication.preview s.ledger e ≡ ApplyDecision.apply
      → apply_ready services e v bytes now s ≡ (s', ok applied)
      → s'.ledger
        ≡ (if services.debug_assertions then (Replication.receive s.ledger e now).0 else s.ledger)
  unfolding apply_ready apply_decided
  apply_ready-ledger e v bytes now s s' d h =
      let s1 = (apply_to_monitor services v s).0 in
      let s2 = (persist services e bytes (some v) none false s1).0 in
      let stores = (persist-OnlyStores services e bytes (some v) none false s1).same_ledger in
      ground (arith, d, h, apply_to_monitor-ledger v s, stores, assert_received-ledger e now s2)

  -- Once an event has been applied, a build with debug assertions knows it and calls it a
  -- duplicate, but a release build has left the whole replay state as it was and would apply the
  -- event again.
  pub preview-apply_ready :
      (e : ClipboardEvent) (v : ClipboardValue) (bytes : Bytes) (now : ℕ)
      (s s' : ClipboardSync B H D)
      → Inv s.ledger
      → IsU32 e.timestamp
      → 0 < s.ledger.seen_capacity
      → Replication.preview s.ledger e ≡ ApplyDecision.apply
      → apply_ready services e v bytes now s ≡ (s', ok applied)
      → (Replication.preview s'.ledger e
          ≡ (if services.debug_assertions then ApplyDecision.duplicate else ApplyDecision.apply))
        × (s'.ledger ≡ (
            if services.debug_assertions then (Replication.receive s.ledger e now).0 else s.ledger))
  unfolding run
  preview-apply_ready e v bytes now s s' inv u room d h =
      let after = apply_ready-ledger e v bytes now s s' d h in
      let known : Replication.preview (Replication.receive s.ledger e now).0 e
          ≡ ApplyDecision.duplicate =
        preview-run_duplicate s.ledger e now [] inv u tt (omega arith) (ground (arith, d)) in
      elim (Bool-cases services.debug_assertions) [
        | inl b ↦ (ground (arith, after, b, known), after)
        | inr b ↦ (ground (arith, after, b, d), after)
      ]

  -- An event that the replay state knows changes nothing but the clock: not the desktop clipboard,
  -- not the history, not the blobs, nor the queues or the seen ids.
  pub apply_ready_duplicate :
      (e : ClipboardEvent) (v : ClipboardValue) (bytes : Bytes) (now : ℕ) (s : ClipboardSync B H D)
      → Replication.preview s.ledger e ≡ ApplyDecision.duplicate
      → let (s', result) = apply_ready services e v bytes now s in
        (result ≡ ok SyncOutcome.duplicate)
        × (s'.monitor ≡ s.monitor)
        × (s'.history ≡ s.history)
        × (s'.blobs ≡ s.blobs)
        × KeepsReplication s s'
  unfolding apply_ready apply_decided receive_event
  apply_ready_duplicate e v bytes now s d =
      rw (d, receive_duplicate s.ledger e now d)
        (
          refl,
          refl,
          refl,
          refl,
          record { same_device = refl; same_current = refl; same_seen = refl; same_pending = refl },
        )
