-- ===== src/Extensions/Registry/Hex.antt =====
-- Hexadecimal text of crates/extensions/src/registry.rs: decoding against encoding.
use superspace.Base.{
  ℕ, ◌+◌, ◌*◌, ◌/◌, ◌%◌, ◌<◌, ◌≡◌, refl, ap, true, some, [], ◌∷◌, length, All, arith, ltb,
}
use superspace.Base.Bytes.{Bytes, IsByte}
use superspace.Base.Result.{ok}
use superspace.Base.Text.{as_bytes}
use superspace.Extensions.Registry.{
  encode_hex, hex_char, hex_digit, decode_pairs, decode_hex, decode_fixed,
}

hex_char-ascii : (d : ℕ) → d < 16 → ltb (hex_char d) 0x80 ≡ true
hex_char-ascii d h = ground arith

hex_digit-hex_char : (d : ℕ) → d < 16 → hex_digit (hex_char d) ≡ some d
hex_digit-hex_char d h = ground arith

-- The text is its own encoding.
pub as_bytes-encode_hex :
    (bytes : Bytes) → All IsByte bytes → as_bytes (encode_hex bytes) ≡ encode_hex bytes
unfolding as_bytes encode_hex
as_bytes-encode_hex [] h = refl
as_bytes-encode_hex (b ∷ bs) h =
    rw
      (
        hex_char-ascii (b / 16) (omega (arith, h.0)),
        hex_char-ascii (b % 16) (omega arith),
        as_bytes-encode_hex bs h.1,
      )
      refl

pub length-encode_hex : (bytes : Bytes) → length (encode_hex bytes) ≡ 2 * length bytes
unfolding encode_hex
length-encode_hex [] = refl
length-encode_hex (b ∷ bs) = omega (arith, length-encode_hex bs)

decode_pairs-encode_hex :
    (bytes : Bytes) → All IsByte bytes → decode_pairs (encode_hex bytes) ≡ ok bytes
unfolding decode_pairs encode_hex
decode_pairs-encode_hex [] h = refl
decode_pairs-encode_hex (b ∷ bs) h =
    rw
      (
        hex_digit-hex_char (b / 16) (omega (arith, h.0)),
        hex_digit-hex_char (b % 16) (omega arith),
        decode_pairs-encode_hex bs h.1,
      )
      (let e : b / 16 * 16 + b % 16 ≡ b = omega arith in ap (λ n. ok (n ∷ bs)) e)

pub decode_hex-encode_hex :
    (bytes : Bytes) → All IsByte bytes → decode_hex (encode_hex bytes) ≡ ok bytes
unfolding decode_hex
decode_hex-encode_hex bytes h =
    rw (as_bytes-encode_hex bytes h, decode_pairs-encode_hex bytes h)
      (ground (arith, length-encode_hex bytes))

-- An array of `n` bytes is read back.
pub decode_fixed-encode_hex :
    (n : ℕ) (bytes : Bytes)
    → All IsByte bytes
    → length bytes ≡ n
    → decode_fixed n (encode_hex bytes) ≡ ok bytes
unfolding decode_fixed
decode_fixed-encode_hex n bytes h e = rw (decode_hex-encode_hex bytes h) (ground arith)
