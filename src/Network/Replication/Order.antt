-- ===== src/Network/Replication/Order.antt =====
-- The order on events of crates/network/src/replication.rs: `compare_event` is a linear order, so
-- that the later of two events does not depend on which is seen first.
use superspace.Base.{
  ◌≤◌, ◌<◌, ◌≡◌, ◌⊎◌, inl, inr, ◌↔◌, true, Option, none, some, arith, if◌then◌else◌,
}
use superspace.Protocol.Clock
use superspace.Network.Replication.{EventKey, compare_event, is_le, loses}

-- `a` is at most `b`, by the fields in their order.
abbrev pub KeyLe : EventKey → EventKey → Type 0
KeyLe a b =
    (a.timestamp.physical_millis < b.timestamp.physical_millis)
    ⊎ ((a.timestamp.physical_millis ≡ b.timestamp.physical_millis)
        × ((a.timestamp.logical < b.timestamp.logical)
            ⊎ ((a.timestamp.logical ≡ b.timestamp.logical)
                × ((a.origin < b.origin) ⊎ ((a.origin ≡ b.origin) × (a.id ≤ b.id))))))

compare_event_iff : (a b : EventKey) → (is_le (compare_event a b) ≡ true) ↔ KeyLe a b
unfolding is_le compare_event Clock.cmp
compare_event_iff a b = ground arith

pub KeyLe-refl : (a : EventKey) → KeyLe a a
KeyLe-refl a = ground arith

pub KeyLe-trans : (a b c : EventKey) → KeyLe a b → KeyLe b c → KeyLe a c
KeyLe-trans a b c h k = ground arith

pub KeyLe-total : (a b : EventKey) → KeyLe a b ⊎ KeyLe b a
KeyLe-total a b = ground arith

pub KeyLe-antisym : (a b : EventKey) → KeyLe a b → KeyLe b a → a ≡ b
KeyLe-antisym a b h k = ground arith

-- The later of the current key and another, as the linear order has it.
unfoldable pub later : Option EventKey → EventKey → Option EventKey
later current k = if loses k current then current else some k

-- A key is at most the current one; with no current one, none is.
abbrev pub IsAtMost : EventKey → Option EventKey → Type 0
IsAtMost k none = ⊥
IsAtMost k (some c) = KeyLe k c

-- The later key is at least both, and it is one of the two.
pub later-IsAtMost : (c : Option EventKey) (k : EventKey) → IsAtMost k (later c k)
unfolding later loses
later-IsAtMost none k = KeyLe-refl k
later-IsAtMost (some c) k = ground (arith, compare_event_iff k c, KeyLe-refl k)

pub IsAtMost-later : (c : Option EventKey) (k j : EventKey) → IsAtMost j c → IsAtMost j (later c k)
unfolding later loses
IsAtMost-later none k j h = absurd h
IsAtMost-later (some c) k j h = elim (KeyLe-total k c) [
  | inl le ↦ rw ((compare_event_iff k c).1 le, later) h
  | inr ge ↦ grind (arith, KeyLe-trans j c k h ge)
]

pub later_cases : (c : Option EventKey) (k : EventKey) → (later c k ≡ c) ⊎ (later c k ≡ some k)
unfolding later loses
later_cases c k = ground arith

-- A key that is already at most the current one changes nothing.
pub later_old : (c : Option EventKey) (k : EventKey) → IsAtMost k c → later c k ≡ c
unfolding later loses
later_old none k h = absurd h
later_old (some c) k h = ground (arith, (compare_event_iff k c).1 h)
