-- ===== src/Base/Bytes.antt =====
-- `to_le_bytes`, `from_le_bytes` and their big-endian counterparts, at any width.
use mathlib.Core.List.{reverse, reverse-reverse}
use superspace.Base.{
  ℕ, zero, suc, ◌+◌, ◌*◌, ◌/◌, ◌%◌, ◌^◌, ◌<◌, ◌≡◌, refl, sym, ap, ap₂, ◌∙◌, List, [], ◌∷◌, arith,
  length, length-append, All, Bool, true, ltb, ◌&&◌,
}
use mathlib.Core.List.{reverse-cons}

abbrev pub Bytes : Type 0
Bytes = List ℕ

abbrev pub to_le_bytes : ℕ → ℕ → Bytes
to_le_bytes zero n = []
to_le_bytes (suc width) n = n % 256 ∷ to_le_bytes width (n / 256)

abbrev pub from_le_bytes : Bytes → ℕ
from_le_bytes [] = 0
from_le_bytes (b ∷ bs) = b + 256 * from_le_bytes bs

abbrev pub to_be_bytes : ℕ → ℕ → Bytes
to_be_bytes width n = reverse (to_le_bytes width n)

abbrev pub from_be_bytes : Bytes → ℕ
from_be_bytes bs = from_le_bytes (reverse bs)

pub length-to_le_bytes : (width n : ℕ) → length (to_le_bytes width n) ≡ width
length-to_le_bytes zero n = refl
length-to_le_bytes (suc width) n = ap suc (length-to_le_bytes width (n / 256))

div_lt : (width n : ℕ) → n < 256 ^ suc width → n / 256 < 256 ^ width
div_lt width n h = grind arith

pub from_le_bytes-to_le_bytes :
    (width n : ℕ) → n < 256 ^ width → from_le_bytes (to_le_bytes width n) ≡ n
from_le_bytes-to_le_bytes zero n h = omega arith
from_le_bytes-to_le_bytes (suc width) n h =
    omega (arith, from_le_bytes-to_le_bytes width (n / 256) (div_lt width n h))

abbrev pub IsByte : ℕ → Type 0
IsByte b = b < 256

abbrev pub are_bytes : Bytes → Bool
are_bytes [] = true
are_bytes (b ∷ bs) = ltb b 256 && are_bytes bs

pub are_bytes-All : (bs : Bytes) → are_bytes bs ≡ true → All IsByte bs
are_bytes-All [] h = tt
are_bytes-All (b ∷ bs) h = (ground arith, are_bytes-All bs (ground arith))

pub to_le_bytes-from_le_bytes :
    (bs : Bytes) → All IsByte bs → to_le_bytes (length bs) (from_le_bytes bs) ≡ bs
to_le_bytes-from_le_bytes [] h = refl
to_le_bytes-from_le_bytes (b ∷ bs) h =
    let e : (b + 256 * from_le_bytes bs) % 256 ≡ b = omega (arith, h.0) in
    let f : (b + 256 * from_le_bytes bs) / 256 ≡ from_le_bytes bs = omega (arith, h.0) in
    ap₂ ◌∷◌ e (ap (to_le_bytes (length bs)) f ∙ to_le_bytes-from_le_bytes bs h.1)

length-reverse : (bs : Bytes) → length (reverse bs) ≡ length bs
length-reverse [] = refl
length-reverse (b ∷ bs) =
    omega
      (arith, ap length (reverse-cons b bs), length-append (reverse bs) (b ∷ []), length-reverse bs)

pub length-to_be_bytes : (width n : ℕ) → length (to_be_bytes width n) ≡ width
length-to_be_bytes width n = length-reverse (to_le_bytes width n) ∙ length-to_le_bytes width n

pub from_be_bytes-to_be_bytes :
    (width n : ℕ) → n < 256 ^ width → from_be_bytes (to_be_bytes width n) ≡ n
from_be_bytes-to_be_bytes width n h =
    ap from_le_bytes (reverse-reverse (to_le_bytes width n)) ∙ from_le_bytes-to_le_bytes width n h

pub to_le_bytes_injective :
    (width m n : ℕ)
    → m < 256 ^ width
    → n < 256 ^ width
    → to_le_bytes width m ≡ to_le_bytes width n
    → m ≡ n
to_le_bytes_injective width m n h k e =
    sym (from_le_bytes-to_le_bytes width m h)
    ∙ ap from_le_bytes e
    ∙ from_le_bytes-to_le_bytes width n k
