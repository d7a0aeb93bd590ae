-- ===== src/Network/Replication/Pending.antt =====
-- The replay queues of crates/network/src/replication.rs: what a recorded event, an expiry or an
-- acknowledgement does to each peer's queue.
use superspace.Base.{
  ℕ, zero, suc, ◌≡◌, ◌≢◌, refl, ◌⊎◌, inl, inr, Bool, false, not, ◌||◌, none, some, List, [], ◌∷◌,
  ◌++◌, map, arith, ◌==◌, if◌then◌else◌, Bool-cases, length, retain, length-retain-le,
}
use mathlib.Core.List.{append-nil, append_assoc}
use superspace.Base.Int.{ℤ, leb_ℤ}
use superspace.Protocol.Message.{Uuid, DeviceId, ClipboardEvent}
use superspace.Network.Replication.{
  ReplicationLedger, PendingEvent, Queues, key_of, queue_of, has_queue, update_queue, enqueue,
  push_pending, record_local, pending_for, acknowledge, recorded,
}

pub queue_of-update_queue :
    (peer j : DeviceId) (f : List PendingEvent → List PendingEvent) (qs : Queues)
    → queue_of j (update_queue peer f qs)
      ≡ (if peer == j then f (queue_of peer qs) else queue_of j qs)
unfolding queue_of update_queue
queue_of-update_queue peer j f [] = refl
queue_of-update_queue peer j f ((p, q) ∷ qs) = ground (arith, queue_of-update_queue peer j f qs)

abbrev pub count : DeviceId → List DeviceId → ℕ
count j [] = 0
count j (p ∷ ps) = if p == j then suc (count j ps) else count j ps

abbrev pub copies : PendingEvent → ℕ → List PendingEvent
copies p zero = []
copies p (suc n) = p ∷ copies p n

-- Every peer other than this device gains the event at the end of its queue, once for each time
-- that it is named; this device and the unnamed gain nothing.
queue_of-enqueue :
    (local : DeviceId) (e : ClipboardEvent) (expires : ℤ) (peers : List DeviceId) (qs : Queues)
    (j : DeviceId)
    → queue_of j (enqueue local e expires peers qs)
      ≡ queue_of j qs
        ++ (if j == local
            then []
            else copies (record { event = e; expires_at = expires }) (count j peers))
unfolding enqueue push_pending
queue_of-enqueue local e expires [] qs j = ground (arith, append-nil (queue_of j qs))
queue_of-enqueue local e expires (p ∷ ps) qs j = elim (Bool-cases (p == local)) [
  | inl own ↦ rw own (ground (arith, queue_of-enqueue local e expires ps qs j))
  | inr other ↦ rw other (
      ground (
        arith,
        queue_of-enqueue local e expires ps (update_queue p (push_pending e expires) qs) j,
        queue_of-update_queue p j (push_pending e expires) qs,
        append_assoc (queue_of j qs) (record { event = e; expires_at = expires } ∷ [])
            (copies (record { event = e; expires_at = expires }) (count j ps)),
      ))
]

-- The events of a queue.
abbrev pub events : List PendingEvent → List ClipboardEvent
events = map (λ p. p.event)

-- A recorded event goes to the end of what each named peer is owed, once for each time that it is
-- named, and to nobody else; it becomes the current event. An event of another device is refused.
pub record_local_lem :
    (l : ReplicationLedger) (e : ClipboardEvent) (peers : List DeviceId) (expires : ℤ)
    → ((e.origin ≢ l.local_device) × (record_local l e peers expires ≡ none))
      ⊎ ((e.origin ≡ l.local_device)
          × ((l' : ReplicationLedger) × (record_local l e peers expires ≡ some l')
              × (l'.current ≡ some (key_of e))
              × ((j : DeviceId)
                  → queue_of j l'.pending
                    ≡ queue_of j l.pending
                      ++ (if j == l.local_device
                          then []
                          else copies
                              (record { event = e; expires_at = expires })
                              (count j peers)))))
unfolding record_local
record_local_lem l e peers expires = elim (Bool-cases (e.origin == l.local_device)) [
  | inr foreign ↦ inl (ground arith, rw foreign)
  | inl own ↦ inr (
    ground arith,
    (
      recorded l e peers expires,
      rw own,
      refl,
      λ j. queue_of-enqueue l.local_device e expires peers l.pending j,
    ),
  )
]

-- What a peer is owed at a time: its queue without the expired events, oldest first. Those stay
-- in its queue, and no other queue changes.
pub pending_for_lem :
    (l : ReplicationLedger) (peer : DeviceId) (now : ℤ)
    → let live = retain (λ (p : PendingEvent). leb_ℤ now p.expires_at) in
      let (l', owed) = pending_for l peer now in
      (owed ≡ events (live (queue_of peer l.pending)))
      × ((j : DeviceId)
          → queue_of j l'.pending
            ≡ (if peer == j then live (queue_of j l.pending) else queue_of j l.pending))
unfolding pending_for
pending_for_lem l peer now = (
  ground (arith, queue_of-update_queue peer peer live l.pending),
  λ j. ground (arith, queue_of-update_queue peer j live l.pending),
)
  where
    live : List PendingEvent → List PendingEvent
    live = retain (λ p. leb_ℤ now p.expires_at)

abbrev pub holds : Uuid → List PendingEvent → Bool
holds id [] = false
holds id (p ∷ ps) = (p.event.id == id) || holds id ps

retain-without :
    (id : Uuid) (ps : List PendingEvent)
    → holds id (retain (λ p. not (p.event.id == id)) ps) ≡ false
retain-without id [] = refl
retain-without id (p ∷ ps) = ground (arith, retain-without id ps)

length-retain_iff :
    (id : Uuid) (ps : List PendingEvent)
    → not (length (retain (λ p. not (p.event.id == id)) ps) == length ps) ≡ holds id ps
length-retain_iff id [] = ground arith
length-retain_iff id (p ∷ ps) =
    ground (arith, length-retain_iff id ps, length-retain-le (λ q. not (q.event.id == id)) ps)

queue_of-has_queue : (j : DeviceId) (qs : Queues) → has_queue j qs ≡ false → queue_of j qs ≡ []
unfolding queue_of has_queue
queue_of-has_queue j [] h = refl
queue_of-has_queue j ((p, q) ∷ qs) h = ground (arith, queue_of-has_queue j qs)

-- An acknowledgement reports whether the event was waiting for that peer; afterwards it is not,
-- the peer's other events stay in order, and the other queues are unchanged.
pub acknowledge_lem :
    (l : ReplicationLedger) (peer : DeviceId) (id : Uuid)
    → let keep = retain (λ (p : PendingEvent). not (p.event.id == id)) in
      let (l', was_pending) = acknowledge l peer id in
      (was_pending ≡ holds id (queue_of peer l.pending))
      × (holds id (queue_of peer l'.pending) ≡ false)
      × ((j : DeviceId)
          → queue_of j l'.pending
            ≡ (if peer == j then keep (queue_of j l.pending) else queue_of j l.pending))
unfolding acknowledge
acknowledge_lem l peer id = elim (Bool-cases (has_queue peer l.pending)) [
  | inl found ↦ rw found (
    length-retain_iff id (queue_of peer l.pending),
    ground (
      arith,
      queue_of-update_queue peer peer keep l.pending,
      retain-without id (queue_of peer l.pending),
    ),
    λ j. ground (arith, queue_of-update_queue peer j keep l.pending),
  )
  | inr missing ↦
      let e = queue_of-has_queue peer l.pending missing in
      rw missing (ground (arith, e), ground (arith, e), λ j. ground (arith, e))
]
  where
    keep : List PendingEvent → List PendingEvent
    keep = retain (λ p. not (p.event.id == id))
