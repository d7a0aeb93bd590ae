-- ===== src/Protocol/Clock.antt =====
-- crates/protocol/src/clock.rs: the hybrid logical clock that orders clipboard events.
-- `physical_millis` is a u64 and `logical` a u32; both are plain numbers here, and
-- `saturating_add` is written out at the bound of a u32.
pub mod Laws
mod Examples
use Prim.Native.Nat.{Ordering}
use superspace.Base.{
  ℕ, ◌+◌, ◌-◌, ◌^◌, min, max, compare, Bool, true, false, ◌&&◌, ltb, ◌==◌, if◌then◌else◌,
}
use superspace.Base.Order.{then_cmp}

abbrev pub u32_max : ℕ
u32_max = 2 ^ 32 - 1

abbrev pub saturating_add_u32 : ℕ → ℕ → ℕ
saturating_add_u32 a b = min (a + b) u32_max

pub record HybridTimestamp : Type 0 where
  pub physical_millis : ℕ
  pub logical : ℕ

unfoldable pub new : ℕ → HybridTimestamp
new physical_millis = record { physical_millis = physical_millis; logical = 0 }

unfoldable pub tick : HybridTimestamp → ℕ → HybridTimestamp
unfolding new
tick self now_millis =
    if ltb self.physical_millis now_millis
    then new now_millis
    else record self { logical = saturating_add_u32 self.logical 1 }

-- The logical counter of `receive`, once the physical part is known.
abbrev receive_logical : HybridTimestamp → HybridTimestamp → ℕ → ℕ
receive_logical self remote physical_millis =
    if (physical_millis == self.physical_millis) && (physical_millis == remote.physical_millis)
    then saturating_add_u32 (max self.logical remote.logical) 1
    else if physical_millis == self.physical_millis
    then saturating_add_u32 self.logical 1
    else if physical_millis == remote.physical_millis
    then saturating_add_u32 remote.logical 1
    else 0

unfoldable pub receive : HybridTimestamp → HybridTimestamp → ℕ → HybridTimestamp
receive self remote now_millis =
    let physical = max (max self.physical_millis remote.physical_millis) now_millis in
    record { physical_millis = physical; logical = receive_logical self remote physical }

-- The derived `Ord`: by the fields, in their order.
unfoldable pub cmp : HybridTimestamp → HybridTimestamp → Ordering
cmp a b = then_cmp (compare a.physical_millis b.physical_millis) (compare a.logical b.logical)
