-- ===== src/Sync/Frames.antt =====
-- Which parts of the coordinator's state the inner calls of crates/sync/src/lib.rs leave alone.
use superspace.Base.{ℕ, ◌≡◌, refl, ◌∙◌, Bool, Option, arith, ap}
use superspace.Base.Bytes.{Bytes}
use superspace.Base.Text.{Text}
use superspace.Protocol.Message.{Uuid, ClipboardEvent, ClipboardFormat}
use superspace.Network.Replication.{Queues, EventKey}
use superspace.Network.Replication
use superspace.Platform.Clipboard.{ClipboardValue}
use superspace.Sync.Codec.{EncodedValue}
use superspace.Sync.Parts.{ClipboardSync, Services, stored, persist, local_event}

module _ {B H D : Type 0} where
  -- Nothing but the history and the blobs differs.
  pub record OnlyStores (s t : ClipboardSync B H D) : Type 0 where
    pub same_device : t.local_device ≡ s.local_device
    pub same_monitor : t.monitor ≡ s.monitor
    pub same_ledger : t.ledger ≡ s.ledger

  pub OnlyStores-trans :
      (s t u : ClipboardSync B H D) → OnlyStores s t → OnlyStores t u → OnlyStores s u
  OnlyStores-trans s t u h k = record {
    same_device = k.same_device ∙ h.same_device;
    same_monitor = k.same_monitor ∙ h.same_monitor;
    same_ledger = k.same_ledger ∙ h.same_ledger;
  }

  -- The device, the current event, the seen ids and the queues are as they were.
  pub record KeepsReplication (s t : ClipboardSync B H D) : Type 0 where
    pub same_device : t.local_device ≡ s.local_device
    pub same_current : t.ledger.current ≡ s.ledger.current
    pub same_seen : t.ledger.seen ≡ s.ledger.seen
    pub same_pending : t.ledger.pending ≡ s.ledger.pending

  pub KeepsReplication-trans :
      (s t u : ClipboardSync B H D)
      → KeepsReplication s t
      → KeepsReplication t u
      → KeepsReplication s u
  KeepsReplication-trans s t u h k = record {
    same_device = k.same_device ∙ h.same_device;
    same_current = k.same_current ∙ h.same_current;
    same_seen = k.same_seen ∙ h.same_seen;
    same_pending = k.same_pending ∙ h.same_pending;
  }

  OnlyStores-refl : (s : ClipboardSync B H D) → OnlyStores s s
  OnlyStores-refl s = record { same_device = refl; same_monitor = refl; same_ledger = refl }

  pub KeepsReplication-of_stores :
      (s t : ClipboardSync B H D) → OnlyStores s t → KeepsReplication s t
  KeepsReplication-of_stores s t h = record {
    same_device = h.same_device;
    same_current = ap (λ l. l.current) h.same_ledger;
    same_seen = ap (λ l. l.seen) h.same_ledger;
    same_pending = ap (λ l. l.pending) h.same_ledger;
  }

module _ {B H D : Type 0} (services : Services B H D) where
  stored-OnlyStores :
      (format : ClipboardFormat) (bytes : Bytes) (v : Option ClipboardValue)
      (s : ClipboardSync B H D)
      → OnlyStores s (stored services format bytes v s).0
  unfolding stored
  stored-OnlyStores ClipboardFormat.text bytes v s = ground arith
  stored-OnlyStores ClipboardFormat.html bytes v s = ground arith
  stored-OnlyStores ClipboardFormat.rtf bytes v s = ground arith
  stored-OnlyStores ClipboardFormat.png bytes v s = ground arith
  stored-OnlyStores ClipboardFormat.files bytes v s = ground arith

  pub persist-OnlyStores :
      (e : ClipboardEvent) (bytes : Bytes) (v : Option ClipboardValue) (a : Option Text) (x : Bool)
      (s : ClipboardSync B H D)
      → OnlyStores s (persist services e bytes v a x s).0
  unfolding persist
  persist-OnlyStores e bytes v a x s = ground (arith, stored-OnlyStores e.format bytes v s)

  -- A new event of this device changes the clock alone.
  pub local_event-Keeps :
      (id : Uuid) (now : ℕ) (v : EncodedValue) (s : ClipboardSync B H D)
      → KeepsReplication s (local_event services id now v s).0
        × ((local_event services id now v s).0.history ≡ s.history)
        × ((local_event services id now v s).0.blobs ≡ s.blobs)
  unfolding local_event Replication.next_timestamp
  local_event-Keeps id now v s = (ground arith, ground arith, ground arith)
