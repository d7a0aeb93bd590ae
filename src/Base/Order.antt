-- ===== src/Base/Order.antt =====
-- Lexicographic comparison of results, as a derived `Ord` computes it.
use Prim.Native.Nat.{Ordering}

-- `Ordering::then`: the second result decides a tie.
abbrev pub then_cmp : Ordering → Ordering → Ordering
then_cmp Ordering.lt b = Ordering.lt
then_cmp Ordering.eq b = b
then_cmp Ordering.gt b = Ordering.gt

-- `Ordering::reverse`
abbrev pub reverse : Ordering → Ordering
reverse Ordering.lt = Ordering.gt
reverse Ordering.eq = Ordering.eq
reverse Ordering.gt = Ordering.lt
