-- ===== src/Extensions/Registry/Nonzero.antt =====
-- Joining by zero bytes, as the signing payload of crates/extensions/src/registry.rs does, and the texts that
-- hold no zero.
use superspace.Base.{
  ℕ, ◌/◌, ◌%◌, ◌<◌, ◌≡◌, refl, ap, ap₂, Bool, true, ◌&&◌, some, List, [], ◌∷◌, ◌++◌, arith, length,
  All, ==_iff, both_right, ltb, ◌==◌,
}
use superspace.Base.Bytes.{Bytes, IsByte}
use superspace.Base.Result.{ok, guard, ok_or, bind-ok, guard-ok, ok_or-ok}
use superspace.Base.Text.{Text, as_bytes}
use superspace.Extensions.Package.{all_bytes, is_identifier_byte}
use superspace.Extensions.Registry.{
  invalid_key, current_schema, encode_hex, hex_char, hex_digit, decode_pairs, decode_hex,
  decode_fixed, join_zero, packages_dir, package_suffix, to_string,
}

abbrev pub IsNonzero : ℕ → Type 0
IsNonzero b = 0 < b

-- Up to its first zero a sequence of bytes is determined.
split_zero :
    (xs ys us vs : Bytes)
    → All IsNonzero xs
    → All IsNonzero ys
    → xs ++ (0 ∷ us) ≡ ys ++ (0 ∷ vs)
    → (xs ≡ ys) × (us ≡ vs)
split_zero [] [] us vs hx hy h = (refl, cc)
split_zero [] (y ∷ ys) us vs hx hy h = absurd (grind arith)
split_zero (x ∷ xs) [] us vs hx hy h = absurd (grind arith)
split_zero (x ∷ xs) (y ∷ ys) us vs hx hy h =
    let (e, f) = split_zero xs ys us vs hx.1 hy.1 (cc) in (cc, f)

pub join_zero_injective :
    (ps qs : List Bytes)
    → All (All IsNonzero) ps
    → All (All IsNonzero) qs
    → length ps ≡ length qs
    → join_zero ps ≡ join_zero qs
    → ps ≡ qs
unfolding join_zero
join_zero_injective [] [] hp hq n h = refl
join_zero_injective [] (q ∷ qs) hp hq n h = absurd (omega arith)
join_zero_injective (p ∷ ps) [] hp hq n h = absurd (omega arith)
join_zero_injective (p ∷ []) (q ∷ []) hp hq n h = ap (λ x. x ∷ []) h
join_zero_injective (p ∷ []) (q ∷ q' ∷ qs) hp hq n h = absurd (omega arith)
join_zero_injective (p ∷ p' ∷ ps) (q ∷ []) hp hq n h = absurd (omega arith)
join_zero_injective (p ∷ p' ∷ ps) (q ∷ q' ∷ qs) hp hq n h =
    let (e, f) = split_zero p q (join_zero (p' ∷ ps)) (join_zero (q' ∷ qs)) hp.0 hq.0 h in
    ap₂ ◌∷◌ e (join_zero_injective (p' ∷ ps) (q' ∷ qs) hp.1 hq.1 (omega arith) f)

hex_char-IsNonzero : (d : ℕ) → d < 16 → IsNonzero (hex_char d)
hex_char-IsNonzero d h = ground arith

pub encode_hex-IsNonzero : (bytes : Bytes) → All IsByte bytes → All IsNonzero (encode_hex bytes)
unfolding encode_hex
encode_hex-IsNonzero [] h = tt
encode_hex-IsNonzero (b ∷ bs) h = (
  hex_char-IsNonzero (b / 16) (omega (arith, h.0)),
  (hex_char-IsNonzero (b % 16) (omega arith), encode_hex-IsNonzero bs h.1),
)

hex_digit-IsNonzero : (b d : ℕ) → hex_digit b ≡ some d → IsNonzero b
hex_digit-IsNonzero b d h = ground arith

decode_pairs-IsNonzero :
    (bs out : Bytes) → length bs % 2 ≡ 0 → decode_pairs bs ≡ ok out → All IsNonzero bs
unfolding decode_pairs
decode_pairs-IsNonzero [] out n h = tt
decode_pairs-IsNonzero (a ∷ []) out n h = absurd (omega arith)
decode_pairs-IsNonzero (a ∷ b ∷ rest) out n h =
    let high = bind-ok (ok_or (hex_digit a) invalid_key) _ out h in
    let low = bind-ok (ok_or (hex_digit b) invalid_key) _ out high.then_ok in
    let bytes = bind-ok (decode_pairs rest) _ out low.then_ok in
    (
      hex_digit-IsNonzero a high.value (ok_or-ok _ invalid_key high.value high.first),
      (
        hex_digit-IsNonzero b low.value (ok_or-ok _ invalid_key low.value low.first),
        decode_pairs-IsNonzero rest bytes.value (omega arith) bytes.first,
      ),
    )

even : (n : ℕ) → (n % 2 == 0) ≡ true → n % 2 ≡ 0
even n h = (==_iff (n % 2) 0).0 h

pub decode_fixed-IsNonzero :
    (n : ℕ) (value : Text) (out : Bytes)
    → decode_fixed n value ≡ ok out
    → All IsNonzero (as_bytes value)
unfolding decode_fixed decode_hex
decode_fixed-IsNonzero n value out h =
    let a = bind-ok (decode_hex value) _ out h in
    let b = bind-ok (guard (length (as_bytes value) % 2 == 0) invalid_key) _ a.value a.first in
    decode_pairs-IsNonzero (as_bytes value) a.value
      (even _ (guard-ok _ invalid_key b.value b.first)) b.then_ok

pub all_bytes-IsNonzero : (bs : Bytes) → all_bytes is_identifier_byte bs ≡ true → All IsNonzero bs
unfolding all_bytes
all_bytes-IsNonzero [] h = tt
all_bytes-IsNonzero (b ∷ bs) h =
    let rest : all_bytes is_identifier_byte bs ≡ true = ground arith in
    (ground arith, all_bytes-IsNonzero bs rest)

are_nonzero : Bytes → Bool
are_nonzero [] = true
are_nonzero (b ∷ bs) = ltb 0 b && are_nonzero bs

are_nonzero-All : (bs : Bytes) → are_nonzero bs ≡ true → All IsNonzero bs
unfolding are_nonzero
are_nonzero-All [] h = tt
are_nonzero-All (b ∷ bs) h =
    let rest = both_right (ltb 0 b) _ h in (ground arith, are_nonzero-All bs rest)

pub dir-IsNonzero : All IsNonzero (as_bytes packages_dir)
unfolding are_nonzero as_bytes
dir-IsNonzero = are_nonzero-All (as_bytes packages_dir) refl

pub slash-IsNonzero : All IsNonzero (as_bytes (b'/' ∷ []))
unfolding are_nonzero as_bytes
slash-IsNonzero = are_nonzero-All (as_bytes (b'/' ∷ [])) refl

pub suffix-IsNonzero : All IsNonzero (as_bytes package_suffix)
unfolding are_nonzero as_bytes
suffix-IsNonzero = are_nonzero-All (as_bytes package_suffix) refl

pub schema-IsNonzero : All IsNonzero (as_bytes (to_string current_schema))
unfolding are_nonzero as_bytes to_string
schema-IsNonzero = are_nonzero-All (as_bytes (to_string current_schema)) refl
