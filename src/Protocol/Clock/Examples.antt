-- ===== src/Protocol/Clock/Examples.antt =====
-- The clock of crates/protocol/src/clock.rs on examples.
use superspace.Base.{◌≤◌, ◌≡◌, refl, ◌⊎◌, arith}
use superspace.Protocol.Clock.{HybridTimestamp, u32_max, tick, receive}
use superspace.Protocol.Clock.Laws.{Before, NotAfter, IsU32, clock_advances}

abbrev local : HybridTimestamp
local = record { physical_millis = 100; logical = 7 }

abbrev ahead : HybridTimestamp
ahead = record { physical_millis = 120; logical = 3 }

abbrev full : HybridTimestamp
full = record { physical_millis = 100; logical = u32_max }

tick_stalled : tick local 90 ≡ record { physical_millis = 100; logical = 8 }
unfolding tick
tick_stalled = refl

tick-full : tick full 100 ≡ full
unfolding tick
tick-full = refl

receive-ahead : receive local ahead 110 ≡ record { physical_millis = 120; logical = 4 }
unfolding receive
receive-ahead = refl

clock_advances_example :
    (NotAfter local (tick local 110)
      × (Before local (tick local 110) ⊎ ((7 ≡ u32_max) × (110 ≤ 100)))
      × (110 ≤ (tick local 110).physical_millis)
      × IsU32 (tick local 110))
    × (NotAfter local (receive local ahead 110)
        × NotAfter ahead (receive local ahead 110)
        × (110 ≤ (receive local ahead 110).physical_millis)
        × IsU32 (receive local ahead 110)
        × ((Before local (receive local ahead 110) × Before ahead (receive local ahead 110))
            ⊎ ((7 ≡ u32_max) ⊎ (3 ≡ u32_max))))
clock_advances_example = clock_advances local ahead 110 (omega arith) (omega arith)
