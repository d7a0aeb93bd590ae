-- ===== src/Protocol/Clock/Laws.antt =====
-- Laws of the clock of crates/protocol/src/clock.rs.
use Prim.Native.Nat.{Ordering}
use superspace.Base.{ℕ, ◌≤◌, ◌<◌, ◌≡◌, ◌⊎◌, ◌↔◌, arith}
use superspace.Protocol.Clock.{HybridTimestamp, u32_max, tick, receive, cmp}

-- Strict order by the physical part, then the logical one.
abbrev pub Before : HybridTimestamp → HybridTimestamp → Type 0
Before a b =
    (a.physical_millis < b.physical_millis)
    ⊎ ((a.physical_millis ≡ b.physical_millis) × (a.logical < b.logical))

abbrev pub NotAfter : HybridTimestamp → HybridTimestamp → Type 0
NotAfter a b =
    (a.physical_millis < b.physical_millis)
    ⊎ ((a.physical_millis ≡ b.physical_millis) × (a.logical ≤ b.logical))

-- Both fields fit their machine types' range for the counter.
abbrev pub IsU32 : HybridTimestamp → Type 0
IsU32 a = a.logical ≤ u32_max

pub cmp-lt_iff : (a b : HybridTimestamp) → (cmp a b ≡ Ordering.lt) ↔ Before a b
unfolding cmp
cmp-lt_iff a b = ground arith

pub NotAfter-trans : (a b c : HybridTimestamp) → NotAfter a b → NotAfter b c → NotAfter a c
NotAfter-trans a b c h k = ground arith

pub tick-NotAfter :
    (s : HybridTimestamp) (now : ℕ)
    → IsU32 s
    → NotAfter s (tick s now)
      × (Before s (tick s now) ⊎ ((s.logical ≡ u32_max) × (now ≤ s.physical_millis)))
      × (now ≤ (tick s now).physical_millis)
      × IsU32 (tick s now)
unfolding tick
tick-NotAfter s now h = ground arith

pub receive-NotAfter :
    (s r : HybridTimestamp) (now : ℕ)
    → IsU32 s
    → IsU32 r
    → NotAfter s (receive s r now)
      × NotAfter r (receive s r now)
      × (now ≤ (receive s r now).physical_millis)
      × IsU32 (receive s r now)
      × ((Before s (receive s r now) × Before r (receive s r now))
          ⊎ ((s.logical ≡ u32_max) ⊎ (r.logical ≡ u32_max)))
unfolding receive
receive-NotAfter s r now h k = ground arith

-- A tick never moves the clock back, and moves it strictly forward unless the u32 counter is full and
-- the physical time has not advanced. A merge is not earlier than either clock, and it is strictly later
-- than both unless one of the two counters is full. Neither result is earlier than the physical time
-- given, and both counters fit a u32.
pub clock_advances :
    (s r : HybridTimestamp) (now : ℕ)
    → IsU32 s
    → IsU32 r
    → (NotAfter s (tick s now)
        × (Before s (tick s now) ⊎ ((s.logical ≡ u32_max) × (now ≤ s.physical_millis)))
        × (now ≤ (tick s now).physical_millis)
        × IsU32 (tick s now))
      × (NotAfter s (receive s r now)
          × NotAfter r (receive s r now)
          × (now ≤ (receive s r now).physical_millis)
          × IsU32 (receive s r now)
          × ((Before s (receive s r now) × Before r (receive s r now))
              ⊎ ((s.logical ≡ u32_max) ⊎ (r.logical ≡ u32_max))))
clock_advances s r now h k = (tick-NotAfter s now h, receive-NotAfter s r now h k)
