-- ===== src/Base/Int.antt =====
-- Signed integers over the native numbers, for the program's i64 values.
use superspace.Base.{ℕ, suc, ◌+◌, ◌-◌, ◌≡◌, Bool, true, false, leb, if◌then◌else◌, arith, compare}
use superspace.Base.Order.{reverse}
use superspace.Base.Sort.{is_eq}
use Prim.Native.Nat.{Ordering}

-- `negsuc n` is -(n + 1).
pub data ℤ : Type 0 where
  pos : ℕ → ℤ
  negsuc : ℕ → ℤ

abbrev pub leb_ℤ : ℤ → ℤ → Bool
leb_ℤ (pos a) (pos b) = leb a b
leb_ℤ (pos a) (negsuc b) = false
leb_ℤ (negsuc a) (pos b) = true
leb_ℤ (negsuc a) (negsuc b) = leb b a

abbrev pub pos_part : ℤ → ℕ
pos_part (pos n) = n
pos_part (negsuc n) = 0

abbrev pub neg_part : ℤ → ℕ
neg_part (pos n) = 0
neg_part (negsuc n) = suc n

-- a - b, as an integer.
abbrev pub sub_ℕ : ℕ → ℕ → ℤ
sub_ℕ a b = if leb b a then pos (a - b) else negsuc (b - a - 1)

infixl 65 ◌+ℤ◌ ◌-ℤ◌
abbrev pub ◌+ℤ◌ : ℤ → ℤ → ℤ
a +ℤ b = sub_ℕ (pos_part a + pos_part b) (neg_part a + neg_part b)

abbrev pub ◌-ℤ◌ : ℤ → ℤ → ℤ
a -ℤ b = sub_ℕ (pos_part a + neg_part b) (neg_part a + pos_part b)

-- `i64::cmp`
abbrev pub compare_ℤ : ℤ → ℤ → Ordering
compare_ℤ (pos a) (pos b) = compare a b
compare_ℤ (pos a) (negsuc b) = Ordering.gt
compare_ℤ (negsuc a) (pos b) = Ordering.lt
compare_ℤ (negsuc a) (negsuc b) = compare b a

pub compare_ℤ-reverse : (a b : ℤ) → compare_ℤ b a ≡ reverse (compare_ℤ a b)
compare_ℤ-reverse (pos a) (pos b) = ground arith
compare_ℤ-reverse (pos a) (negsuc b) = ground arith
compare_ℤ-reverse (negsuc a) (pos b) = ground arith
compare_ℤ-reverse (negsuc a) (negsuc b) = ground arith

pub compare_ℤ-eq : (a b : ℤ) → is_eq (compare_ℤ a b) ≡ true → a ≡ b
compare_ℤ-eq (pos a) (pos b) h = ground arith
compare_ℤ-eq (pos a) (negsuc b) h = ground arith
compare_ℤ-eq (negsuc a) (pos b) h = ground arith
compare_ℤ-eq (negsuc a) (negsuc b) h = ground arith
