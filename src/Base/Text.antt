-- ===== src/Base/Text.antt =====
-- `String` as its list of characters (Unicode scalar values), with UTF-8 encoding and decoding,
-- equality, and the splitting that paths use.
use superspace.Base.{
  ℕ, zero, suc, ◌+◌, ◌-◌, ◌*◌, ◌/◌, ◌%◌, ◌<◌, ◌≡◌, refl, ◌^◌, ap, sym, ◌∙◌, ◌⊎◌, inl, both_left,
  both_right, Bool, true, false, ◌&&◌, ◌||◌, Option, none, some, List, [], ◌∷◌, ◌++◌, arith, ltb,
  leb, ◌==◌, if◌then◌else◌, length, All,
}
use superspace.Base.Bytes.{Bytes, are_bytes}
use superspace.Base.Order.{then_cmp}
use superspace.Base.Order
use superspace.Base.Sort.{is_eq}
use Prim.Native.Nat.{compare, Ordering}
use mathlib.Core.List.{reverse, append_assoc}

abbrev pub Text : Type 0
Text = List ℕ

-- The values of Rust's `char`.
abbrev pub IsScalar : ℕ → Type 0
IsScalar c = (c < 0xD800) ⊎ ((0xDFFF < c) × (c < 0x110000))

abbrev is_scalar : ℕ → Bool
is_scalar c = ltb c 0xD800 || (ltb 0xDFFF c && ltb c 0x110000)

-- `char::encode_utf8`
abbrev pub encode_char : ℕ → Bytes
encode_char c =
    if ltb c 0x80
    then c ∷ []
    else if ltb c 0x800
    then (0xC0 + c / 64) ∷ (0x80 + c % 64) ∷ []
    else if ltb c 0x10000
    then (0xE0 + c / 4096) ∷ (0x80 + c / 64 % 64) ∷ (0x80 + c % 64) ∷ []
    else (0xF0 + c / 262144) ∷ (0x80 + c / 4096 % 64) ∷ (0x80 + c / 64 % 64) ∷ (0x80 + c % 64) ∷ []

-- `str::as_bytes`
unfoldable pub as_bytes : Text → Bytes
as_bytes [] = []
as_bytes (c ∷ s) = encode_char c ++ as_bytes s

-- The decoder between two bytes: how many continuation bytes are due, the bits so far, and the
-- least value that the sequence may stand for.
record Pending : Type 0 where
  due : ℕ
  bits : ℕ
  least : ℕ

abbrev idle : Pending
idle = record { due = 0; bits = 0; least = 0 }

-- One byte: a finished character or none, and the next state; `none` for an invalid byte.
lead : ℕ → Option (Option ℕ × Pending)
lead b =
    if ltb b 0x80
    then some (some b, idle)
    else if ltb b 0xC0
    then none
    else if ltb b 0xE0
    then some (none, record { due = 1; bits = b - 0xC0; least = 0x80 })
    else if ltb b 0xF0
    then some (none, record { due = 2; bits = b - 0xE0; least = 0x800 })
    else if ltb b 0xF8
    then some (none, record { due = 3; bits = b - 0xF0; least = 0x10000 })
    else none

finish : ℕ → ℕ → Option (Option ℕ × Pending)
finish least c = if leb least c && is_scalar c then some (some c, idle) else none

continue : ℕ → Pending → ℕ → Option (Option ℕ × Pending)
unfolding finish
continue due p b =
    let bits = p.bits * 64 + (b - 0x80) in
    if leb 0x80 b && ltb b 0xC0
    then (if due == 0
        then finish p.least bits
        else some (none, record { due = due; bits = bits; least = p.least }))
    else none

decode_byte : ℕ → Pending → ℕ → Option (Option ℕ × Pending)
unfolding lead continue
decode_byte zero p b = lead b
decode_byte (suc due) p b = continue due p b

emit : Option ℕ → Text → Text
emit none s = s
emit (some c) s = c ∷ s

decode : Pending → Bytes → Option Text
unfolding decode_byte emit
decode p [] = if p.due == 0 then some [] else none
decode p (b ∷ bs) = elim (decode_byte p.due p b) [
  | none ↦ none
  | some (out, q) ↦ elim (decode q bs) [ none ↦ none | some s ↦ some (emit out s) ]
]

-- `std::str::from_utf8`
unfoldable pub from_utf8 : Bytes → Option Text
unfolding decode
from_utf8 = decode idle

abbrev pub cons_some : ℕ → Option Text → Option Text
cons_some c none = none
cons_some c (some s) = some (c ∷ s)

decode-encode_char :
    (c : ℕ) (bs : Bytes)
    → IsScalar c
    → decode idle (encode_char c ++ bs) ≡ cons_some c (decode idle bs)
unfolding decode
decode-encode_char c bs h = ground arith

-- Numbers below 256 are scalar values.
pub are_bytes-IsScalar : (s : Text) → are_bytes s ≡ true → All IsScalar s
are_bytes-IsScalar [] h = tt
are_bytes-IsScalar (c ∷ s) h =
    let small : c < 0xD800 = ground (arith, both_left (ltb c 256) _ h) in
    (inl small, are_bytes-IsScalar s (both_right (ltb c 256) _ h))

-- Decoding the encoding of a text gives the text back.
pub from_utf8-as_bytes : (s : Text) → All IsScalar s → from_utf8 (as_bytes s) ≡ some s
unfolding from_utf8 as_bytes
from_utf8-as_bytes [] h = refl
from_utf8-as_bytes (c ∷ s) h =
    decode-encode_char c (as_bytes s) h.0 ∙ ap (cons_some c) (from_utf8-as_bytes s h.1)

-- `==` of texts.
abbrev pub text_eq : Text → Text → Bool
text_eq [] [] = true
text_eq [] (d ∷ t) = false
text_eq (c ∷ s) [] = false
text_eq (c ∷ s) (d ∷ t) = (c == d) && text_eq s t

pub text_eq→≡ : (s t : Text) → text_eq s t ≡ true → s ≡ t
text_eq→≡ [] [] h = refl
text_eq→≡ [] (d ∷ t) h = cc
text_eq→≡ (c ∷ s) [] h = cc
text_eq→≡ (c ∷ s) (d ∷ t) h = ground (arith, text_eq→≡ s t)

pub text_eq_refl : (s : Text) → text_eq s s ≡ true
text_eq_refl [] = refl
text_eq_refl (c ∷ s) = ground (arith, text_eq_refl s)

pub ≡→text_eq : (s t : Text) → s ≡ t → text_eq s t ≡ true
≡→text_eq s t e = ap (λ u. text_eq s u) (sym e) ∙ text_eq_refl s

pub as_bytes-append : (s t : Text) → as_bytes (s ++ t) ≡ as_bytes s ++ as_bytes t
unfolding as_bytes
as_bytes-append [] t = refl
as_bytes-append (c ∷ s) t =
    ap (λ u. encode_char c ++ u) (as_bytes-append s t)
    ∙ sym (append_assoc (encode_char c) (as_bytes s) (as_bytes t))

-- The `White_Space` characters of Unicode, which `str::trim` removes.
abbrev pub is_whitespace : ℕ → Bool
is_whitespace c =
    (leb 0x9 c && leb c 0xD)
    || (c == 0x20)
    || (c == 0x85)
    || (c == 0xA0)
    || (c == 0x1680)
    || (leb 0x2000 c && leb c 0x200A)
    || (c == 0x2028)
    || (c == 0x2029)
    || (c == 0x202F)
    || (c == 0x205F)
    || (c == 0x3000)

-- `str::trim_start`
unfoldable pub trim_start : Text → Text
trim_start [] = []
trim_start (c ∷ s) = let rest = trim_start s in if is_whitespace c then rest else c ∷ s

-- `str::trim`
unfoldable pub trim : Text → Text
unfolding trim_start
trim s = reverse (trim_start (reverse (trim_start s)))

-- `str::is_empty`
abbrev pub is_empty {ℓ} : {A : Type ℓ} → List A → Bool
is_empty [] = true
is_empty (c ∷ s) = false

-- A `String`: scalar values, and a number of bytes that a usize holds.
pub record IsString (s : Text) : Type 0 where
  pub scalars : All IsScalar s
  pub sized : length (as_bytes s) < 2 ^ 64

pub as_bytes_injective :
    (s t : Text) → All IsScalar s → All IsScalar t → as_bytes s ≡ as_bytes t → s ≡ t
as_bytes_injective s t h k e = cc (from_utf8-as_bytes s h, from_utf8-as_bytes t k, ap from_utf8 e)

-- `String::cmp`: the order of the bytes is that of the characters.
abbrev pub compare_text : Text → Text → Ordering
compare_text [] [] = Ordering.eq
compare_text [] (d ∷ t) = Ordering.lt
compare_text (c ∷ s) [] = Ordering.gt
compare_text (c ∷ s) (d ∷ t) = then_cmp (compare c d) (compare_text s t)

pub compare_text-reverse : (s t : Text) → compare_text t s ≡ Order.reverse (compare_text s t)
compare_text-reverse [] [] = refl
compare_text-reverse [] (d ∷ t) = refl
compare_text-reverse (c ∷ s) [] = refl
compare_text-reverse (c ∷ s) (d ∷ t) = ground (arith, compare_text-reverse s t)

pub compare_text-eq : (s t : Text) → is_eq (compare_text s t) ≡ true → s ≡ t
compare_text-eq [] [] h = refl
compare_text-eq [] (d ∷ t) h = cc
compare_text-eq (c ∷ s) [] h = cc
compare_text-eq (c ∷ s) (d ∷ t) h = ground (arith, compare_text-eq s t)

-- `str::starts_with`, the text first.
abbrev pub starts_with : Text → Text → Bool
starts_with s [] = true
starts_with [] (d ∷ t) = false
starts_with (c ∷ s) (d ∷ t) = (c == d) && starts_with s t
