-- ===== src/Network/Replication/Invariant.antt =====
-- The ledger of crates/network/src/replication.rs as a state machine, and what holds of it after
-- any history of calls.
use superspace.Base.{
  ℕ, ◌≤◌, ◌≡◌, refl, inl, inr, Bool, not, Option, none, some, List, [], ◌∷◌, arith, ◌==◌,
  Bool-cases, length, retain, All, All-append, All-retain,
}
use superspace.Base.Int.{ℤ}
use superspace.Protocol.Clock.{HybridTimestamp}
use superspace.Protocol.Clock
use superspace.Protocol.Clock.Laws.{
  NotAfter, NotAfter-trans, IsU32, tick-NotAfter, receive-NotAfter,
}
use superspace.Protocol.Message.{Uuid, DeviceId, ClipboardEvent}
use superspace.Network.Replication.{
  ReplicationLedger, PendingEvent, EventKey, Queues, ApplyDecision, apply, duplicate, superseded,
  key_of, new, mark_seen, preview, commit, receive, record_local, has_queue, update_queue, enqueue,
  push_pending, pending_for, acknowledge, next_timestamp,
}
use superspace.Network.Replication.Seen.{
  IsWindow, mark_seen-IsWindow, length-mark_seen-le, mark_seen_frame,
}

-- The calls that change the ledger.
pub data Call : Type 0 where
  receives : ClipboardEvent → ℕ → Call
  records : ClipboardEvent → List DeviceId → ℤ → Call
  drains : DeviceId → ℤ → Call
  acknowledges : DeviceId → Uuid → Call
  stamps : ℕ → Call

-- A call that is refused leaves the ledger as it was.
abbrev pub after : ReplicationLedger → Option ReplicationLedger → ReplicationLedger
after l none = l
after l (some l') = l'

unfoldable pub step : ReplicationLedger → Call → ReplicationLedger
step l (receives e now) = (receive l e now).0
step l (records e peers expires) = after l (record_local l e peers expires)
step l (drains peer now) = (pending_for l peer now).0
step l (acknowledges peer id) = (acknowledge l peer id).0
step l (stamps now) = (next_timestamp l now).0

unfoldable pub run : ReplicationLedger → List Call → ReplicationLedger
run l [] = l
run l (c ∷ cs) = run (step l c) cs

-- The event's counter fits its u32.
abbrev pub IsTyped : Call → Type 0
IsTyped (receives e now) = IsU32 e.timestamp
IsTyped (records e peers expires) = IsU32 e.timestamp
IsTyped (drains peer now) = Unit
IsTyped (acknowledges peer id) = Unit
IsTyped (stamps now) = Unit

-- No event in the queue comes from elsewhere.
abbrev IsOwn : DeviceId → List PendingEvent → Type 0
IsOwn local = All (λ p. p.event.origin ≡ local)

abbrev AreOwn : DeviceId → Queues → Type 0
AreOwn local [] = Unit
AreOwn local ((peer, queue) ∷ qs) = IsOwn local queue × AreOwn local qs

abbrev Covers : HybridTimestamp → Option EventKey → Type 0
Covers clock none = Unit
Covers clock (some k) = NotAfter k.timestamp clock

pub record Inv (l : ReplicationLedger) : Type 0 where
  -- the set and the queue of seen ids agree, and hold each id once
  pub window : IsWindow l.seen_order l.seen
  -- no more than the capacity
  pub bounded : length l.seen_order ≤ l.seen_capacity
  pub counter : IsU32 l.clock
  -- the clock is not behind the current event
  pub covers : Covers l.clock l.current
  -- only this device's own events wait
  pub own : AreOwn l.local_device l.pending

pub new-Inv : (d : DeviceId) (now : ℕ) → Inv (new d now)
unfolding new Clock.new
new-Inv d now = record {
  window = record { distinct = tt; same = λ a. refl };
  bounded = omega arith;
  counter = omega arith;
  covers = tt;
  own = tt;
}

Covers-mono : (c d : HybridTimestamp) (k : Option EventKey) → NotAfter c d → Covers c k → Covers d k
Covers-mono c d none h k = tt
Covers-mono c d (some k) h v = NotAfter-trans k.timestamp c d v h

mark_seen-Inv : (l : ReplicationLedger) (id : Uuid) → Inv l → Inv (mark_seen l id)
mark_seen-Inv l id v =
    let (same_device, same_clock, same_current, same_pending, same_capacity) =
      mark_seen_frame l id in
    record {
      window = mark_seen-IsWindow l id v.window;
      bounded = rw same_capacity (length-mark_seen-le l id v.bounded);
      counter = rw same_clock v.counter;
      covers = rw (same_clock, same_current) v.covers;
      own = rw (same_device, same_pending) v.own;
    }

-- A merge of the clock.
merged : ReplicationLedger → HybridTimestamp → ℕ → ReplicationLedger
merged l t now = record l { clock = Clock.receive l.clock t now }

merged-Inv :
    (l : ReplicationLedger) (t : HybridTimestamp) (now : ℕ)
    → IsU32 t
    → Inv l
    → Inv (merged l t now) × NotAfter t (merged l t now).clock
unfolding merged
merged-Inv l t now u v =
    let (forward, over, _, fits, _) = receive-NotAfter l.clock t now v.counter u in
    (
      record {
        window = v.window;
        bounded = v.bounded;
        counter = fits;
        covers = Covers-mono l.clock (Clock.receive l.clock t now) l.current forward v.covers;
        own = v.own;
      },
      over,
    )

set_current-Inv :
    (l : ReplicationLedger) (k : EventKey)
    → NotAfter k.timestamp l.clock
    → Inv l
    → Inv (record l { current = some k })
set_current-Inv l k h v = record {
  window = v.window;
  bounded = v.bounded;
  counter = v.counter;
  covers = h;
  own = v.own;
}

marked_current-Inv :
    (l : ReplicationLedger) (e : ClipboardEvent)
    → NotAfter e.timestamp l.clock
    → Inv l
    → Inv (record (mark_seen l e.id) { current = some (key_of e) })
marked_current-Inv l e h v =
    set_current-Inv (mark_seen l e.id) (key_of e) (rw ((mark_seen_frame l e.id).1) h)
      (mark_seen-Inv l e.id v)

commit-Inv :
    (l : ReplicationLedger) (e : ClipboardEvent) (d : ApplyDecision)
    → NotAfter e.timestamp l.clock
    → Inv l
    → Inv (commit l e d)
unfolding commit
commit-Inv l e apply h v = marked_current-Inv l e h v
commit-Inv l e duplicate h v = v
commit-Inv l e superseded h v = mark_seen-Inv l e.id v

update_queue-AreOwn :
    (local peer : DeviceId) (f : List PendingEvent → List PendingEvent) (qs : Queues)
    → ((q : List PendingEvent) → IsOwn local q → IsOwn local (f q))
    → AreOwn local qs
    → AreOwn local (update_queue peer f qs)
unfolding update_queue
update_queue-AreOwn local peer f [] h own = (h [] tt, tt)
update_queue-AreOwn local peer f ((p, q) ∷ qs) h own = elim (Bool-cases (p == peer)) [
  | inl hit ↦ rw hit (h q own.0, own.1)
  | inr miss ↦ rw miss (own.0, update_queue-AreOwn local peer f qs h own.1)
]

enqueue-AreOwn :
    (local : DeviceId) (e : ClipboardEvent) (expires : ℤ) (peers : List DeviceId) (qs : Queues)
    → e.origin ≡ local
    → AreOwn local qs
    → AreOwn local (enqueue local e expires peers qs)
unfolding enqueue push_pending
enqueue-AreOwn local e expires [] qs o own = own
enqueue-AreOwn local e expires (p ∷ ps) qs o own = elim (Bool-cases (p == local)) [
  | inl self ↦ rw self (enqueue-AreOwn local e expires ps qs o own)
  | inr other ↦ rw other (
      enqueue-AreOwn local e expires ps _ o (
        update_queue-AreOwn local p (push_pending e expires) qs (λ q h. All-append _ q _ h (o, tt))
          own))
]

set_pending-Inv :
    (l : ReplicationLedger) (qs : Queues)
    → AreOwn l.local_device qs
    → Inv l
    → Inv (record l { pending = qs })
set_pending-Inv l qs h v = record {
  window = v.window;
  bounded = v.bounded;
  counter = v.counter;
  covers = v.covers;
  own = h;
}

retain_queue-Inv :
    (l : ReplicationLedger) (peer : DeviceId) (keep : PendingEvent → Bool)
    → Inv l
    → Inv (record l { pending = update_queue peer (retain keep) l.pending })
retain_queue-Inv l peer keep v =
    set_pending-Inv l _
      (update_queue-AreOwn l.local_device peer (retain keep) l.pending
        (λ q h. All-retain _ keep q h) v.own)
      v

record_local-Inv :
    (l : ReplicationLedger) (e : ClipboardEvent) (peers : List DeviceId) (expires : ℤ)
    → IsU32 e.timestamp
    → Inv l
    → Inv (after l (record_local l e peers expires))
unfolding record_local
record_local-Inv l e peers expires u v = elim (Bool-cases (e.origin == l.local_device)) [
  | inr foreign ↦ rw foreign v
  | inl own ↦ rw own (
      let (w, over) = merged-Inv l e.timestamp e.timestamp.physical_millis u v in
      unfold merged in
      set_pending-Inv
        (record (mark_seen (merged l e.timestamp e.timestamp.physical_millis) e.id) {
          current = some (key_of e);
        })
        _
        (rw ((mark_seen_frame (merged l e.timestamp e.timestamp.physical_millis) e.id).0)
          (enqueue-AreOwn l.local_device e expires peers l.pending (ground arith) v.own))
        (marked_current-Inv (merged l e.timestamp e.timestamp.physical_millis) e over w))
]

acknowledge-Inv :
    (l : ReplicationLedger) (peer : DeviceId) (id : Uuid) → Inv l → Inv (acknowledge l peer id).0
unfolding acknowledge
acknowledge-Inv l peer id v = elim (Bool-cases (has_queue peer l.pending)) [
  | inl found ↦ rw found (retain_queue-Inv l peer (λ p. not (p.event.id == id)) v)
  | inr missing ↦ rw missing v
]

-- Every call keeps the invariant.
pub step-Inv : (l : ReplicationLedger) (c : Call) → IsTyped c → Inv l → Inv (step l c)
unfolding step receive pending_for next_timestamp merged
step-Inv l (receives e now) u v =
    let (w, over) = merged-Inv l e.timestamp now u v in
    commit-Inv (merged l e.timestamp now) e (preview (merged l e.timestamp now) e) over w
step-Inv l (records e peers expires) u v = record_local-Inv l e peers expires u v
step-Inv l (drains peer now) u v = retain_queue-Inv l peer _ v
step-Inv l (acknowledges peer id) u v = acknowledge-Inv l peer id v
step-Inv l (stamps now) u v =
    let (forward, _, _, fits) = tick-NotAfter l.clock now v.counter in
    record {
      window = v.window;
      bounded = v.bounded;
      counter = fits;
      covers = Covers-mono l.clock _ l.current forward v.covers;
      own = v.own;
    }

pub run-Inv : (l : ReplicationLedger) (cs : List Call) → All IsTyped cs → Inv l → Inv (run l cs)
unfolding run
run-Inv l [] u v = v
run-Inv l (c ∷ cs) u v = run-Inv (step l c) cs u.1 (step-Inv l c u.0 v)

-- After any history of calls on a new ledger the seen set and its queue hold the same ids, each
-- once and no more than the capacity; the clock is not behind the current event; and every waiting
-- event is the device's own.
pub run-new-Inv :
    (d : DeviceId) (now : ℕ) (cs : List Call) → All IsTyped cs → Inv (run (new d now) cs)
run-new-Inv d now cs u = run-Inv (new d now) cs u (new-Inv d now)
