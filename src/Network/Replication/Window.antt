-- ===== src/Network/Replication/Window.antt =====
-- How long crates/network/src/replication.rs remembers an event: its window in calls.
use superspace.Base.{
  ℕ, suc, ◌+◌, ◌-◌, ◌≤◌, ◌<◌, ◌≡◌, ◌≢◌, refl, ap, ◌∙◌, inl, inr, true, false, List, [], ◌∷◌, ◌++◌,
  arith, ◌==◌, Bool-cases, length, drop, length-append, drop-append_le, All,
}
use mathlib.Core.List.{append_assoc}
use superspace.Base.Int.{ℤ}
use superspace.Base.Sets.{contains, contains-append}
use superspace.Protocol.Message.{Uuid, DeviceId, ClipboardEvent}
use superspace.Protocol.Clock.{HybridTimestamp}
use superspace.Protocol.Clock
use superspace.Network.Replication.{
  ReplicationLedger, ApplyDecision, apply, duplicate, superseded, mark_seen, evict, preview, commit,
  receive, record_local, pending_for, acknowledge, next_timestamp,
}
use superspace.Network.Replication.Seen.{evict-drop, mark_seen_frame}
use superspace.Network.Replication.Invariant.{
  Call, receives, records, drains, acknowledges, stamps, step, run, after, IsTyped, Inv, step-Inv,
  run-Inv,
}

-- The id stands in the queue with at most `n` newer ones behind it.
record IsRecent (id : Uuid) (n : ℕ) (order : List Uuid) : Type 0 where
  older : List Uuid
  newer : List Uuid
  split : order ≡ older ++ (id ∷ newer)
  few : length newer ≤ n

IsRecent-mono :
    (id : Uuid) (m n : ℕ) (order : List Uuid) → m ≤ n → IsRecent id m order → IsRecent id n order
IsRecent-mono id m n order h r = record {
  older = r.older;
  newer = r.newer;
  split = r.split;
  few = omega arith;
}

IsRecent-evict :
    (id : Uuid) (n capacity : ℕ) (order seen : List Uuid)
    → n < capacity
    → IsRecent id n order
    → IsRecent id n (evict capacity order seen).0
IsRecent-evict id n capacity order seen h r = record {
  older = drop (length order - capacity) r.older;
  newer = r.newer;
  split =
      evict-drop capacity order seen
      ∙ ap (drop (length order - capacity)) r.split
      ∙ drop-append_le (length order - capacity) r.older (id ∷ r.newer)
          (omega (arith, ap length r.split, length-append r.older (id ∷ r.newer), r.few));
  few = r.few;
}

IsRecent-push :
    (id j : Uuid) (n : ℕ) (order : List Uuid)
    → IsRecent id n order
    → IsRecent id (suc n) (order ++ j ∷ [])
IsRecent-push id j n order r = record {
  older = r.older;
  newer = r.newer ++ j ∷ [];
  split = ap (λ o. o ++ j ∷ []) r.split ∙ append_assoc r.older (id ∷ r.newer) (j ∷ []);
  few = omega (arith, r.few, length-append r.newer (j ∷ []));
}

mark_seen-IsRecent :
    (l : ReplicationLedger) (id j : Uuid) (n : ℕ)
    → suc n < l.seen_capacity
    → IsRecent id n l.seen_order
    → IsRecent id (suc n) (mark_seen l j).seen_order
unfolding mark_seen
mark_seen-IsRecent l id j n h r = elim (Bool-cases (contains j l.seen)) [
  | inl old ↦ rw old (IsRecent-mono id n (suc n) l.seen_order (omega arith) r)
  | inr fresh ↦ rw fresh (
      IsRecent-evict id (suc n) l.seen_capacity (l.seen_order ++ j ∷ []) (j ∷ l.seen) h
        (IsRecent-push id j n l.seen_order r))
]

commit-IsRecent :
    (l : ReplicationLedger) (e : ClipboardEvent) (d : ApplyDecision) (id : Uuid) (n : ℕ)
    → suc n < l.seen_capacity
    → IsRecent id n l.seen_order
    → IsRecent id (suc n) (commit l e d).seen_order
      × ((commit l e d).seen_capacity ≡ l.seen_capacity)
unfolding commit
commit-IsRecent l e apply id n h r =
    (mark_seen-IsRecent l id e.id n h r, (mark_seen_frame l e.id).4)
commit-IsRecent l e superseded id n h r =
    (mark_seen-IsRecent l id e.id n h r, (mark_seen_frame l e.id).4)
commit-IsRecent l e duplicate id n h r =
    (IsRecent-mono id n (suc n) l.seen_order (omega arith) r, refl)

acknowledge_window :
    (l : ReplicationLedger) (peer : DeviceId) (id : Uuid)
    → ((acknowledge l peer id).0.seen_order ≡ l.seen_order)
      × ((acknowledge l peer id).0.seen_capacity ≡ l.seen_capacity)
unfolding acknowledge
acknowledge_window l peer id = ground arith

records-IsRecent :
    (l : ReplicationLedger) (e : ClipboardEvent) (peers : List DeviceId) (x : ℤ) (id : Uuid) (n : ℕ)
    → suc n < l.seen_capacity
    → IsRecent id n l.seen_order
    → IsRecent id (suc n) (after l (record_local l e peers x)).seen_order
      × ((after l (record_local l e peers x)).seen_capacity ≡ l.seen_capacity)
unfolding record_local
records-IsRecent l e peers x id n h r =
    let clock = Clock.receive l.clock e.timestamp e.timestamp.physical_millis in
    let ledger = record l { clock = clock } in
    elim (Bool-cases (e.origin == l.local_device)) [
      | inl own ↦ rw own (mark_seen-IsRecent ledger id e.id n h r, (mark_seen_frame ledger e.id).4)
      | inr foreign ↦ rw foreign (IsRecent-mono id n (suc n) l.seen_order (omega arith) r, refl)
    ]

step-IsRecent :
    (l : ReplicationLedger) (c : Call) (id : Uuid) (n : ℕ)
    → suc n < l.seen_capacity
    → IsRecent id n l.seen_order
    → IsRecent id (suc n) (step l c).seen_order × ((step l c).seen_capacity ≡ l.seen_capacity)
unfolding step receive pending_for next_timestamp
step-IsRecent l (receives e now) id n h r =
    let ledger = record l { clock = Clock.receive l.clock e.timestamp now } in
    commit-IsRecent ledger e (preview ledger e) id n h r
step-IsRecent l (records e peers x) id n h r = records-IsRecent l e peers x id n h r
step-IsRecent l (drains peer now) id n h r =
    (IsRecent-mono id n (suc n) l.seen_order (omega arith) r, refl)
step-IsRecent l (acknowledges peer j) id n h r =
    let (same_order, same_capacity) = acknowledge_window l peer j in
    (rw same_order (IsRecent-mono id n (suc n) l.seen_order (omega arith) r), same_capacity)
step-IsRecent l (stamps now) id n h r =
    (IsRecent-mono id n (suc n) l.seen_order (omega arith) r, refl)

run-IsRecent :
    (l : ReplicationLedger) (cs : List Call) (id : Uuid) (n : ℕ)
    → n + length cs < l.seen_capacity
    → IsRecent id n l.seen_order
    → IsRecent id (n + length cs) (run l cs).seen_order
unfolding run
run-IsRecent l [] id n h r = IsRecent-mono id n (n + 0) l.seen_order (omega arith) r
run-IsRecent l (c ∷ cs) id n h r =
    let (next, same) = step-IsRecent l c id n (omega arith) r in
    IsRecent-mono id (suc n + length cs) (n + suc (length cs)) _ (omega arith)
      (run-IsRecent (step l c) cs id (suc n) (omega arith) next)

contains-IsRecent :
    (id : Uuid) (n : ℕ) (order : List Uuid) → IsRecent id n order → contains id order ≡ true
contains-IsRecent id n order r = ground (arith, r.split, contains-append id r.older (id ∷ r.newer))

commit-IsRecent_fresh :
    (l : ReplicationLedger) (e : ClipboardEvent)
    → 0 < l.seen_capacity
    → contains e.id l.seen ≡ false
    → IsRecent e.id 0 (mark_seen l e.id).seen_order
unfolding mark_seen
commit-IsRecent_fresh l e h fresh = rw fresh (
    IsRecent-evict e.id 0 l.seen_capacity (l.seen_order ++ e.id ∷ []) (e.id ∷ l.seen) h
      (record { older = l.seen_order; newer = []; split = refl; few = omega arith }))

receive-IsRecent :
    (l : ReplicationLedger) (e : ClipboardEvent) (now : ℕ)
    → 0 < l.seen_capacity
    → preview l e ≢ duplicate
    → IsRecent e.id 0 (receive l e now).0.seen_order
      × ((receive l e now).0.seen_capacity ≡ l.seen_capacity)
unfolding receive preview commit
receive-IsRecent l e now h p =
    let ledger = record l { clock = Clock.receive l.clock e.timestamp now } in
    grind (arith, commit-IsRecent_fresh ledger e h, mark_seen_frame ledger e.id)

-- An event that is new when it arrives is recognised as a duplicate for as long as fewer calls
-- follow than the window holds ids, whatever the calls are.
pub preview-run_duplicate :
    (l : ReplicationLedger) (e : ClipboardEvent) (now : ℕ) (cs : List Call)
    → Inv l
    → IsTyped (receives e now)
    → All IsTyped cs
    → length cs < l.seen_capacity
    → preview l e ≢ duplicate
    → preview (run (receive l e now).0 cs) e ≡ duplicate
unfolding preview
preview-run_duplicate l e now cs v u us h p =
    let start = receive-IsRecent l e now (omega arith) p in
    let recent = run-IsRecent (receive l e now).0 cs e.id 0 (omega (arith, start.1)) start.0 in
    let w = run-Inv (receive l e now).0 cs us (unfold step in step-Inv l (receives e now) u v) in
    rw (w.window.same e.id ∙ contains-IsRecent e.id (0 + length cs) _ recent)

-- An event that is known changes the clock alone.
pub receive_duplicate :
    (l : ReplicationLedger) (e : ClipboardEvent) (now : ℕ)
    → preview l e ≡ duplicate
    → receive l e now ≡ (record l { clock = Clock.receive l.clock e.timestamp now }, duplicate)
unfolding receive preview commit
receive_duplicate l e now h = ground (arith, h)
