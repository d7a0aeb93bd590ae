-- ===== src/Network/Replication/Convergence.antt =====
-- Conflict resolution of crates/network/src/replication.rs across devices: what `current` is after
-- any events, in any order and with any repetition.
use superspace.Base.{
  ℕ, ◌≡◌, refl, sym, ap, ◌⊎◌, inl, inr, true, Option, none, some, List, [], ◌∷◌, arith, Bool-cases,
  All,
}
use superspace.Base.Sets.{contains}
use superspace.Protocol.Message.{Uuid, DeviceId, ClipboardEvent}
use superspace.Protocol.Clock
use superspace.Network.Replication.{
  ApplyDecision, ReplicationLedger, EventKey, key_of, new, receive, preview, commit, mark_seen,
  apply, duplicate, superseded,
}
use superspace.Network.Replication.Order.{
  KeyLe-antisym, later, IsAtMost, later-IsAtMost, IsAtMost-later, later_cases, later_old,
}
use superspace.Network.Replication.Seen.{All-mark_seen}

-- A list of arrivals: each event with the local time at which it comes in.
abbrev pub Arrivals : Type 0
Arrivals = List (ClipboardEvent × ℕ)

unfoldable pub receive_all : ReplicationLedger → Arrivals → ReplicationLedger
receive_all self [] = self
receive_all self ((event, now) ∷ rest) = receive_all (receive self event now).0 rest

-- `k` is the key of one of the events.
abbrev pub Arrives : EventKey → Arrivals → Type 0
Arrives k [] = ⊥
Arrives k ((event, now) ∷ rest) = (key_of event ≡ k) ⊎ Arrives k rest

module _ {κ} (P : Uuid → Type κ) where
  seen-commit :
      (l : ReplicationLedger) (e : ClipboardEvent) (d : ApplyDecision)
      → P e.id
      → All P l.seen
      → All P (commit l e d).seen
  unfolding commit
  seen-commit l e apply p h = All-mark_seen P l e.id p h
  seen-commit l e duplicate p h = h
  seen-commit l e superseded p h = All-mark_seen P l e.id p h

  seen-receive :
      (l : ReplicationLedger) (e : ClipboardEvent) (now : ℕ)
      → P e.id
      → All P l.seen
      → All P (receive l e now).0.seen
  unfolding receive
  seen-receive l e now p h =
      let ledger = record l { clock = Clock.receive l.clock e.timestamp now } in
      seen-commit ledger e (preview ledger e) p h

-- Ids are globally unique: `stamp` gives the one event key that goes with an id.
module _ (stamp : Uuid → EventKey) where
  abbrev pub IsStamped : Arrivals → Type 0
  IsStamped = All (λ a. key_of a.0 ≡ stamp a.0.id)

  -- No id that has been seen belongs to an event later than the current one.
  abbrev SeenAtMost : ReplicationLedger → Type 0
  SeenAtMost l = All (λ id. IsAtMost (stamp id) l.current) l.seen

  seen-IsAtMost :
      (id : Uuid) (c : Option EventKey) (seen : List Uuid)
      → All (λ a. IsAtMost (stamp a) c) seen
      → contains id seen ≡ true
      → IsAtMost (stamp id) c
  seen-IsAtMost id c [] h e = cc
  seen-IsAtMost id c (x ∷ xs) h e = ground (arith, seen-IsAtMost id c xs h.1)

  -- Whatever `preview` decides, the current key becomes the later of itself and the event's.
  current-receive :
      (l : ReplicationLedger) (e : ClipboardEvent) (now : ℕ)
      → key_of e ≡ stamp e.id
      → SeenAtMost l
      → (receive l e now).0.current ≡ later l.current (key_of e)
  unfolding receive preview commit mark_seen later
  current-receive l e now u h = elim (Bool-cases (contains e.id l.seen)) [
    | inl old ↦
        rw old
          (sym (later_old l.current (key_of e) (rw u (seen-IsAtMost e.id l.current l.seen h old))))
    | inr fresh ↦ ground arith
  ]

  SeenAtMost-receive :
      (l : ReplicationLedger) (e : ClipboardEvent) (now : ℕ)
      → key_of e ≡ stamp e.id
      → SeenAtMost l
      → SeenAtMost (receive l e now).0
  SeenAtMost-receive l e now u h = rw (current-receive l e now u h) (
      seen-receive (λ id. IsAtMost (stamp id) (later l.current (key_of e))) l e now
        (rw (← u) (later-IsAtMost l.current (key_of e))) (All-later l.seen h))
    where
      All-later :
          (ids : List Uuid)
          → All (λ id. IsAtMost (stamp id) l.current) ids
          → All (λ id. IsAtMost (stamp id) (later l.current (key_of e))) ids
      All-later [] k = tt
      All-later (x ∷ xs) k = (IsAtMost-later l.current (key_of e) (stamp x) k.0, All-later xs k.1)

  -- The current key at the end is at least every key that arrived or was covered at the start.
  IsAtMost-receive_all :
      (l : ReplicationLedger) (xs : Arrivals) (k : EventKey)
      → SeenAtMost l
      → IsStamped xs
      → IsAtMost k l.current ⊎ Arrives k xs
      → IsAtMost k (receive_all l xs).current
  unfolding receive_all
  IsAtMost-receive_all l [] k h u (inl old) = old
  IsAtMost-receive_all l [] k h u (inr new) = absurd new
  IsAtMost-receive_all l ((e, now) ∷ xs) k h u a =
      IsAtMost-receive_all (receive l e now).0 xs k (SeenAtMost-receive l e now u.0 h) u.1 (carry a)
    where
      grown : IsAtMost k l.current → IsAtMost k (receive l e now).0.current
      grown old = rw (current-receive l e now u.0 h) (IsAtMost-later l.current (key_of e) k old)

      carry :
          IsAtMost k l.current ⊎ ((key_of e ≡ k) ⊎ Arrives k xs)
          → IsAtMost k (receive l e now).0.current ⊎ Arrives k xs
      carry (inl old) = inl (grown old)
      carry (inr (inl eq)) =
          inl (rw (current-receive l e now u.0 h, ← eq) (later-IsAtMost l.current (key_of e)))
      carry (inr (inr later_on)) = inr later_on

  -- It is the starting one, or it arrived.
  receive_all_source :
      (l : ReplicationLedger) (xs : Arrivals) (k : EventKey)
      → SeenAtMost l
      → IsStamped xs
      → (receive_all l xs).current ≡ some k
      → (l.current ≡ some k) ⊎ Arrives k xs
  unfolding receive_all
  receive_all_source l [] k h u e = inl e
  receive_all_source l ((ev, now) ∷ xs) k h u e =
      elim (receive_all_source (receive l ev now).0 xs k (SeenAtMost-receive l ev now u.0 h) u.1
        e) [
          | inl first ↦
              ground
                (arith, first, current-receive l ev now u.0 h, later_cases l.current (key_of ev))
          | inr later_on ↦ inr (inr later_on)
        ]

  same_current :
      (c d : Option EventKey)
      → ((k : EventKey) → c ≡ some k → IsAtMost k d)
      → ((k : EventKey) → d ≡ some k → IsAtMost k c)
      → c ≡ d
  same_current none none f g = refl
  same_current none (some d) f g = absurd (g d refl)
  same_current (some c) none f g = absurd (f c refl)
  same_current (some c) (some d) f g = ap some (KeyLe-antisym c d (f c refl) (g d refl))

  -- Two devices that start fresh and receive the same events, each in any order, any number of
  -- times and at any local times, end with the same current event, also past the replay window's
  -- capacity; ids are globally unique.
  pub receive_all_converges :
      (a b : DeviceId) (s t : ℕ) (xs ys : Arrivals)
      → IsStamped xs
      → IsStamped ys
      → ((k : EventKey) → Arrives k xs → Arrives k ys)
      → ((k : EventKey) → Arrives k ys → Arrives k xs)
      → (receive_all (new a s) xs).current ≡ (receive_all (new b t) ys).current
  unfolding new
  receive_all_converges a b s t xs ys u v f g =
      same_current _ _
        (λ k e. IsAtMost-receive_all (new b t) ys k tt v (inr (f k (arrived a s xs k u e))))
        (λ k e. IsAtMost-receive_all (new a s) xs k tt u (inr (g k (arrived b t ys k v e))))
    where
      arrived :
          (d : DeviceId) (r : ℕ) (zs : Arrivals) (k : EventKey)
          → IsStamped zs
          → (receive_all (new d r) zs).current ≡ some k
          → Arrives k zs
      arrived d r zs k w e = elim (receive_all_source (new d r) zs k tt w e) [
        | inl early ↦ cc
        | inr found ↦ found
      ]
