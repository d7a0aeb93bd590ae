-- ===== src/Network/Replication/Examples.antt =====
-- The ledger of crates/network/src/replication.rs on examples.
use superspace.Base.{
  ℕ, ◌≡◌, ◌≢◌, refl, ◌⊎◌, inl, inr, false, not, none, some, List, [], ◌∷◌, ◌++◌, arith, ◌==◌,
  if◌then◌else◌, retain, All,
}
use superspace.Base.Int.{pos, leb_ℤ}
use superspace.Protocol.Clock.{HybridTimestamp}
use superspace.Protocol.Message.{Uuid, DeviceId, ClipboardEvent, ClipboardFormat, ClipboardContent}
use superspace.Network.Replication.{
  ReplicationLedger, PendingEvent, EventKey, ApplyDecision, apply, duplicate, superseded, key_of,
  new, preview, receive, record_local, pending_for, acknowledge, queue_of,
}
use superspace.Network.Replication.Convergence.{
  Arrivals, receive_all, Arrives, receive_all_converges,
}
use superspace.Network.Replication.Invariant.{
  Call, receives, records, drains, acknowledges, stamps, run, IsTyped, Inv, new-Inv, run-new-Inv,
}
use superspace.Network.Replication.Window.{preview-run_duplicate}
use superspace.Network.Replication.Pending.{
  events, holds, count, copies, record_local_lem, pending_for_lem, acknowledge_lem,
}

abbrev event : Uuid → DeviceId → ℕ → ClipboardEvent
event id origin millis = record {
  id = id;
  origin = origin;
  timestamp = record { physical_millis = millis; logical = 0 };
  format = ClipboardFormat.text;
  content = ClipboardContent.inline (b'h' ∷ b'i' ∷ []);
}

-- Device 1's copy at 50, and device 2's at 60.
abbrev mine : ClipboardEvent
mine = event 10 1 50

abbrev theirs : ClipboardEvent
theirs = event 20 2 60

abbrev fresh : ReplicationLedger
fresh = new 1 0

-- In one order, and in the other with a repetition.
abbrev first_order : Arrivals
first_order = (mine, 70) ∷ (theirs, 71) ∷ []

abbrev second_order : Arrivals
second_order = (theirs, 60) ∷ (mine, 61) ∷ (theirs, 62) ∷ []

abbrev stamp_of : Uuid → EventKey
stamp_of id = if id == 10 then key_of mine else key_of theirs

order_independent : (receive_all fresh second_order).current ≡ some (key_of theirs)
unfolding receive_all receive new preview superspace.Network.Replication.compare_event
    superspace.Protocol.Clock.cmp
order_independent = refl

old_is_superseded : (receive (receive fresh theirs 60).0 mine 61).1 ≡ superseded
unfolding receive new preview superspace.Network.Replication.compare_event
    superspace.Protocol.Clock.cmp
old_is_superseded = refl

to_second : (k : EventKey) → Arrives k first_order → Arrives k second_order
to_second k (inl e) = inr (inl e)
to_second k (inr (inl e)) = inl e
to_second k (inr (inr x)) = absurd x

to_first : (k : EventKey) → Arrives k second_order → Arrives k first_order
to_first k (inl e) = inr (inl e)
to_first k (inr (inl e)) = inl e
to_first k (inr (inr (inl e))) = inr (inl e)
to_first k (inr (inr (inr x))) = absurd x

receive_all_converges_example :
    (receive_all (new 1 0) first_order).current ≡ (receive_all (new 2 5) second_order).current
receive_all_converges_example =
    receive_all_converges stamp_of 1 2 0 5 first_order second_order (refl, (refl, tt))
      (refl, (refl, (refl, tt))) to_second to_first

abbrev calls : List Call
calls =
    receives theirs 60
    ∷ records (event 11 1 80) (2 ∷ 1 ∷ 2 ∷ []) (pos 500)
    ∷ records (event 12 3 80) (2 ∷ []) (pos 500)
    ∷ acknowledges 2 11
    ∷ drains 2 (pos 100)
    ∷ stamps 90
    ∷ []

calls-IsTyped : All IsTyped calls
calls-IsTyped = (omega arith, (omega arith, (omega arith, (tt, (tt, (tt, tt))))))

run-new-Inv_example : Inv (run (new 1 0) calls)
run-new-Inv_example = run-new-Inv 1 0 calls calls-IsTyped

preview-run_duplicate_example : preview (run (receive (new 1 0) mine 70).0 calls) mine ≡ duplicate
unfolding preview new
preview-run_duplicate_example =
    preview-run_duplicate fresh mine 70 calls (new-Inv 1 0) (omega arith) calls-IsTyped
      (omega arith) (λ e. cc)

record_local_lem_example :
    ((1 ≢ fresh.local_device) × (record_local fresh mine (2 ∷ 1 ∷ 2 ∷ []) (pos 500) ≡ none))
    ⊎ ((1 ≡ fresh.local_device)
        × ((l' : ReplicationLedger) × (record_local fresh mine (2 ∷ 1 ∷ 2 ∷ []) (pos 500) ≡ some l')
            × (l'.current ≡ some (key_of mine))
            × ((j : DeviceId)
                → queue_of j l'.pending
                  ≡ queue_of j fresh.pending
                    ++ (if j == fresh.local_device
                        then []
                        else copies
                            (record { event = mine; expires_at = pos 500 })
                            (count j (2 ∷ 1 ∷ 2 ∷ []))))))
record_local_lem_example = record_local_lem fresh mine (2 ∷ 1 ∷ 2 ∷ []) (pos 500)

-- Peer 2 is owed an event that expires at 90 and one that expires at 500.
abbrev waiting : ReplicationLedger
waiting = record fresh {
  pending =
      (
        2,
        record { event = mine; expires_at = pos 90 }
            ∷ record { event = event 11 1 80; expires_at = pos 500 }
            ∷ [],
      )
      ∷ [];
}

expired_is_dropped : (pending_for waiting 2 (pos 100)).1 ≡ event 11 1 80 ∷ []
unfolding pending_for
expired_is_dropped = refl

pending_for_lem_example :
    let live = retain (λ (p : PendingEvent). leb_ℤ (pos 100) p.expires_at) in
    let (l', owed) = pending_for waiting 2 (pos 100) in
    (owed ≡ events (live (queue_of 2 waiting.pending)))
    × ((j : DeviceId)
        → queue_of j l'.pending
          ≡ (if 2 == j then live (queue_of j waiting.pending) else queue_of j waiting.pending))
pending_for_lem_example = pending_for_lem waiting 2 (pos 100)

acknowledge_lem_example :
    let keep = retain (λ (p : PendingEvent). not (p.event.id == 11)) in
    let (l', was_pending) = acknowledge waiting 2 11 in
    (was_pending ≡ holds 11 (queue_of 2 waiting.pending))
    × (holds 11 (queue_of 2 l'.pending) ≡ false)
    × ((j : DeviceId)
        → queue_of j l'.pending
          ≡ (if 2 == j then keep (queue_of j waiting.pending) else queue_of j waiting.pending))
acknowledge_lem_example = acknowledge_lem waiting 2 11
