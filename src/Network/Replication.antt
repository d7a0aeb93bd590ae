-- ===== src/Network/Replication.antt =====
-- crates/network/src/replication.rs: which clipboard events are new, which one is current, and
-- which are still owed to a peer.
-- `seen` is a `HashSet` (a list whose order nothing reads), `seen_order` a `VecDeque` with its
-- front first, `pending` a `HashMap` as an association list. `expires_at` is an i64.
pub mod Order
pub mod Seen
pub mod Pending
pub mod Invariant
pub mod Window
pub mod Convergence
mod Examples
use Prim.Native.Nat.{Ordering}
use superspace.Base.{
  ℕ, ◌+◌, Bool, true, false, not, Option, none, some, List, [], ◌∷◌, ◌++◌, map, compare, ltb, leb,
  ◌==◌, if◌then◌else◌, length, retain,
}
use superspace.Base.Order.{then_cmp}
use superspace.Base.Int.{ℤ, leb_ℤ}
use superspace.Base.Sets.{contains, remove}
use superspace.Protocol.Clock
use superspace.Protocol.Clock.{HybridTimestamp}
use superspace.Protocol.Message.{Uuid, DeviceId, ClipboardEvent}

pub data ApplyDecision : Type 0 where
  apply duplicate superseded : ApplyDecision

pub record PendingEvent : Type 0 where
  pub event : ClipboardEvent
  pub expires_at : ℤ

pub data ReplicationError : Type 0 where
  foreign_local_origin : ReplicationError

-- The tuple `(HybridTimestamp, DeviceId, Uuid)`.
pub record EventKey : Type 0 where
  pub timestamp : HybridTimestamp
  pub origin : DeviceId
  pub id : Uuid

abbrev pub key_of : ClipboardEvent → EventKey
key_of event = record { timestamp = event.timestamp; origin = event.origin; id = event.id }

abbrev pub Queues : Type 0
Queues = List (DeviceId × List PendingEvent)

pub record ReplicationLedger : Type 0 where
  pub local_device : DeviceId
  pub clock : HybridTimestamp
  pub seen : List Uuid
  pub seen_order : List Uuid
  pub current : Option EventKey
  pub pending : Queues
  pub seen_capacity : ℕ

-- `ReplicationLedger::new`
unfoldable pub new : DeviceId → ℕ → ReplicationLedger
new local_device physical_millis = record {
  local_device = local_device;
  clock = Clock.new physical_millis;
  seen = [];
  seen_order = [];
  current = none;
  pending = [];
  seen_capacity = 20000;
}

-- `HashMap::get`, and `entry(peer).or_default()` with the queue changed by `f`.
pub queue_of : DeviceId → Queues → List PendingEvent
queue_of peer [] = []
queue_of peer ((p, queue) ∷ rest) = if p == peer then queue else queue_of peer rest

pub has_queue : DeviceId → Queues → Bool
has_queue peer [] = false
has_queue peer ((p, queue) ∷ rest) = if p == peer then true else has_queue peer rest

pub update_queue : DeviceId → (List PendingEvent → List PendingEvent) → Queues → Queues
update_queue peer f [] = (peer, f []) ∷ []
update_queue peer f ((p, queue) ∷ rest) =
    if p == peer then (p, f queue) ∷ rest else (p, queue) ∷ update_queue peer f rest

-- `while seen_order.len() > seen_capacity { pop_front, remove }`, on both collections.
pub evict : ℕ → List Uuid → List Uuid → List Uuid × List Uuid
evict capacity [] seen = ([], seen)
evict capacity (oldest ∷ rest) seen =
    let shorter = evict capacity rest (remove oldest seen) in
    if ltb capacity (length (oldest ∷ rest)) then shorter else (oldest ∷ rest, seen)

pub mark_seen : ReplicationLedger → Uuid → ReplicationLedger
unfolding evict
mark_seen self id =
    if contains id self.seen
    then self
    else let (order, seen) =
        evict self.seen_capacity (self.seen_order ++ id ∷ []) (id ∷ self.seen) in
      record self { seen = seen; seen_order = order }

pub compare_event : EventKey → EventKey → Ordering
compare_event a b =
    then_cmp (Clock.cmp a.timestamp b.timestamp)
      (then_cmp (compare a.origin b.origin) (compare a.id b.id))

pub is_le : Ordering → Bool
is_le Ordering.gt = false
is_le Ordering.lt = true
is_le Ordering.eq = true

-- `current.as_ref().is_some_and(|current| compare_event(&incoming, current).is_le())`
unfoldable pub loses : EventKey → Option EventKey → Bool
unfolding is_le
loses incoming none = false
loses incoming (some current) = is_le (compare_event incoming current)

unfoldable pub preview : ReplicationLedger → ClipboardEvent → ApplyDecision
unfolding loses
preview self event =
    if contains event.id self.seen
    then duplicate
    else if loses (key_of event) self.current
    then superseded
    else apply

-- The part of `receive` behind the clock, by the decision.
commit : ReplicationLedger → ClipboardEvent → ApplyDecision → ReplicationLedger
unfolding mark_seen
commit self event duplicate = self
commit self event superseded = mark_seen self event.id
commit self event apply = record (mark_seen self event.id) { current = some (key_of event) }

unfoldable pub receive : ReplicationLedger → ClipboardEvent → ℕ → ReplicationLedger × ApplyDecision
unfolding commit
receive self event now_millis =
    let ledger = record self { clock = Clock.receive self.clock event.timestamp now_millis } in
    let decision = preview ledger event in (commit ledger event decision, decision)

push_pending : ClipboardEvent → ℤ → List PendingEvent → List PendingEvent
push_pending event expires_at queue =
    queue ++ record { event = event; expires_at = expires_at } ∷ []

-- `for peer in peers`
pub enqueue : DeviceId → ClipboardEvent → ℤ → List DeviceId → Queues → Queues
unfolding update_queue push_pending
enqueue local event expires_at [] pending = pending
enqueue local event expires_at (peer ∷ peers) pending =
    enqueue local event expires_at peers
      (if peer == local then pending else update_queue peer (push_pending event expires_at) pending)

-- The state that a local event leaves.
pub recorded : ReplicationLedger → ClipboardEvent → List DeviceId → ℤ → ReplicationLedger
unfolding enqueue mark_seen
recorded self event peers expires_at =
    let clock = Clock.receive self.clock event.timestamp event.timestamp.physical_millis in
    let marked = mark_seen (record self { clock = clock }) event.id in
    record marked {
      current = some (key_of event);
      pending = enqueue self.local_device event expires_at peers self.pending;
    }

-- `none` for `Err(ForeignLocalOrigin)`, the only error.
unfoldable pub record_local :
    ReplicationLedger → ClipboardEvent → List DeviceId → ℤ → Option ReplicationLedger
unfolding recorded
record_local self event peers expires_at =
    if not (event.origin == self.local_device)
    then none
    else some (recorded self event peers expires_at)

pub pending_for : ReplicationLedger → DeviceId → ℤ → ReplicationLedger × List ClipboardEvent
unfolding update_queue queue_of
pending_for self peer now_millis =
    let pending = update_queue peer (retain (λ p. leb_ℤ now_millis p.expires_at)) self.pending in
    (record self { pending = pending }, map (λ p. p.event) (queue_of peer pending))

pub acknowledge : ReplicationLedger → DeviceId → Uuid → ReplicationLedger × Bool
unfolding update_queue queue_of has_queue
acknowledge self peer event_id =
    let keep = λ (p : PendingEvent). not (p.event.id == event_id) in
    let before = queue_of peer self.pending in
    if not (has_queue peer self.pending) then (self, false) else (
      record self { pending = update_queue peer (retain keep) self.pending },
      not (length (retain keep before) == length before),
    )

unfoldable pub next_timestamp : ReplicationLedger → ℕ → ReplicationLedger × HybridTimestamp
next_timestamp self now_millis =
    let clock = Clock.tick self.clock now_millis in (record self { clock = clock }, clock)
