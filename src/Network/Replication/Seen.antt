-- ===== src/Network/Replication/Seen.antt =====
-- The replay window of crates/network/src/replication.rs: `mark_seen` and its eviction loop.
use superspace.Base.{
  ℕ, suc, ◌-◌, ◌≤◌, ◌≡◌, refl, sym, ◌∙◌, false, List, [], ◌∷◌, ◌++◌, arith, ltb, Bool-cases, inl,
  inr, length, All, All-retain, drop,
}
use superspace.Base.Sets.{
  contains, remove, IsDistinct, contains-append, contains-remove, IsDistinct-append,
}
use superspace.Network.Replication.{ReplicationLedger, evict, mark_seen}

-- The loop keeps the newest ids, as many as fit.
pub evict-drop :
    (capacity : ℕ) (order seen : List ℕ)
    → (evict capacity order seen).0 ≡ drop (length order - capacity) order
unfolding evict
evict-drop capacity [] seen = ground arith
evict-drop capacity (o ∷ rest) seen = elim (Bool-cases (ltb capacity (length (o ∷ rest)))) [
  | inl more ↦
      let e : length (o ∷ rest) - capacity ≡ suc (length rest - capacity) = ground arith in
      rw (more, e) (evict-drop capacity rest (remove o seen))
  | inr fits ↦ let e : length (o ∷ rest) - capacity ≡ 0 = ground arith in rw (fits, e) refl
]

length-evict-le :
    (capacity : ℕ) (order seen : List ℕ) → length (evict capacity order seen).0 ≤ capacity
unfolding evict
length-evict-le capacity [] seen = omega arith
length-evict-le capacity (o ∷ rest) seen =
    ground (arith, length-evict-le capacity rest (remove o seen))

All-evict {κ} :
    (P : ℕ → Type κ) (capacity : ℕ) (order seen : List ℕ)
    → All P seen
    → All P (evict capacity order seen).1
unfolding evict
All-evict P capacity [] seen h = h
All-evict P capacity (o ∷ rest) seen h = elim (Bool-cases (ltb capacity (length (o ∷ rest)))) [
  | inl more ↦ rw more (All-evict P capacity rest (remove o seen) (All-retain P _ seen h))
  | inr fits ↦ rw fits h
]

-- The set and the queue hold the same ids, each once.
pub record IsWindow (order seen : List ℕ) : Type 0 where
  pub distinct : IsDistinct order
  pub same : (a : ℕ) → contains a seen ≡ contains a order

IsWindow-tail :
    (o : ℕ) (rest seen : List ℕ) → IsWindow (o ∷ rest) seen → IsWindow rest (remove o seen)
IsWindow-tail o rest seen w = record {
  distinct = w.distinct.1;
  same = λ a. ground (arith, w.same a, w.distinct.0, contains-remove a o seen);
}

evict-IsWindow :
    (capacity : ℕ) (order seen : List ℕ)
    → IsWindow order seen
    → let (order', seen') = evict capacity order seen in IsWindow order' seen'
unfolding evict
evict-IsWindow capacity [] seen w = w
evict-IsWindow capacity (o ∷ rest) seen w = elim (Bool-cases (ltb capacity (length (o ∷ rest)))) [
  | inl more ↦ rw more (evict-IsWindow capacity rest (remove o seen) (IsWindow-tail o rest seen w))
  | inr fits ↦ rw fits w
]

IsWindow-push :
    (id : ℕ) (order seen : List ℕ)
    → contains id seen ≡ false
    → IsWindow order seen
    → IsWindow (order ++ id ∷ []) (id ∷ seen)
IsWindow-push id order seen fresh w = record {
  distinct = IsDistinct-append order id w.distinct (sym (w.same id) ∙ fresh);
  same = λ a. ground (arith, w.same a, contains-append a order (id ∷ []));
}

pub mark_seen-IsWindow :
    (l : ReplicationLedger) (id : ℕ)
    → IsWindow l.seen_order l.seen
    → IsWindow (mark_seen l id).seen_order (mark_seen l id).seen
unfolding mark_seen
mark_seen-IsWindow l id w = elim (Bool-cases (contains id l.seen)) [
  | inl old ↦ rw old w
  | inr fresh ↦ rw fresh (
      evict-IsWindow l.seen_capacity (l.seen_order ++ id ∷ []) (id ∷ l.seen)
        (IsWindow-push id l.seen_order l.seen fresh w))
]

pub length-mark_seen-le :
    (l : ReplicationLedger) (id : ℕ)
    → length l.seen_order ≤ l.seen_capacity
    → length (mark_seen l id).seen_order ≤ l.seen_capacity
unfolding mark_seen
length-mark_seen-le l id h =
    ground (arith, length-evict-le l.seen_capacity (l.seen_order ++ id ∷ []) (id ∷ l.seen))

pub All-mark_seen {κ} :
    (P : ℕ → Type κ) (l : ReplicationLedger) (id : ℕ)
    → P id
    → All P l.seen
    → All P (mark_seen l id).seen
unfolding mark_seen
All-mark_seen P l id p h = elim (Bool-cases (contains id l.seen)) [
  | inl old ↦ rw old h
  | inr fresh ↦
      rw fresh (All-evict P l.seen_capacity (l.seen_order ++ id ∷ []) (id ∷ l.seen) (p, h))
]

-- Only the window changes.
pub mark_seen_frame :
    (l : ReplicationLedger) (id : ℕ)
    → ((mark_seen l id).local_device ≡ l.local_device)
      × ((mark_seen l id).clock ≡ l.clock)
      × ((mark_seen l id).current ≡ l.current)
      × ((mark_seen l id).pending ≡ l.pending)
      × ((mark_seen l id).seen_capacity ≡ l.seen_capacity)
unfolding mark_seen
mark_seen_frame l id = ground arith
