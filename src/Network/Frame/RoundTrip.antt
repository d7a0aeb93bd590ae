-- ===== src/Network/Frame/RoundTrip.antt =====
-- Encoding against decoding, and the boundaries of a frame (crates/network/src/frame.rs).
use superspace.Base.{
  ℕ, ◌+◌, ◌*◌, ◌/◌, ◌%◌, ◌≤◌, ◌<◌, ◌≡◌, ◌≢◌, refl, ap, some, List, [], ◌∷◌, ◌++◌, ltb, ◌==◌,
  if◌then◌else◌, arith, length, length-take, zero, suc, take, length-append, Option-cases, inl, inr,
}
use mathlib.Core.List.{append_assoc}
use superspace.Base.Bytes.{Bytes, to_be_bytes}
use superspace.Base.Result.{ok, err, ok_or}
use superspace.Protocol.Message.{Message}
use superspace.Network.Frame.{
  Codec, truncated, trailing_data, codec, max_frame_size, length_bytes, encode_frame, decode_frame,
}

length-pos : {A : Type 0} (xs : List A) → xs ≢ [] → 0 < length xs
length-pos [] h = absurd (h refl)
length-pos (x ∷ xs) h = omega arith

module _ (cbor : Codec) where
  -- What a successful encoding consists of.
  pub record Encodes (message : Message) (frame : Bytes) : Type 0 where
    pub payload : Bytes
    pub encoded : cbor.into_writer message ≡ some payload
    pub fits : length payload ≤ max_frame_size
    pub shape : frame ≡ to_be_bytes length_bytes (length payload) ++ payload

  pub encode_frame-Encodes :
      (message : Message) (frame : Bytes)
      → encode_frame cbor message ≡ ok frame
      → Encodes message frame
  unfolding encode_frame
  encode_frame-Encodes message frame h = elim (Option-cases (cbor.into_writer message)) [
    | inl e ↦ ground (arith, e)
    | inr (payload, e) ↦ record {
      payload = payload;
      encoded = e;
      fits = ground (arith, e);
      shape = ground (arith, e);
    }
  ]

  -- A frame whose prefix announces `n` bytes, by the number of bytes that follow.
  decode_frame_announced :
      (n : ℕ) (rest : Bytes)
      → n ≤ max_frame_size
      → decode_frame cbor (to_be_bytes length_bytes n ++ rest) ≡ (
          if length rest == n
          then ok_or (cbor.from_reader rest) codec
          else if ltb (length rest) n
          then err truncated
          else err trailing_data)
  unfolding decode_frame
  decode_frame_announced n rest h =
      let e : n % 256
            + 256
              * (n / 256 % 256
                  + 256 * (n / 256 / 256 % 256 + 256 * (n / 256 / 256 / 256 % 256 + 0)))
          ≡ n =
        omega arith in
      rw e (ground arith)

  -- What was encoded is decoded, given that CBOR reads back what it wrote.
  pub decode_frame-encode_frame :
      (message : Message) (frame : Bytes)
      → ((payload : Bytes)
          → cbor.into_writer message ≡ some payload
          → cbor.from_reader payload ≡ some message)
      → encode_frame cbor message ≡ ok frame
      → decode_frame cbor frame ≡ ok message
  decode_frame-encode_frame message frame reads h =
      let e = encode_frame-Encodes message frame h in
      rw (e.shape, decode_frame_announced (length e.payload) e.payload e.fits)
        (ground (arith, reads e.payload e.encoded))

  -- Anything behind a frame is refused as trailing data.
  decode_frame_trailing :
      (message : Message) (frame extra : Bytes)
      → encode_frame cbor message ≡ ok frame
      → extra ≢ []
      → decode_frame cbor (frame ++ extra) ≡ err trailing_data
  decode_frame_trailing message frame extra h ne =
      let e = encode_frame-Encodes message frame h in
      rw
        (
          e.shape,
          append_assoc (to_be_bytes length_bytes (length e.payload)) e.payload extra,
          decode_frame_announced (length e.payload) (e.payload ++ extra) e.fits,
        )
        (ground (arith, length-append e.payload extra, length-pos extra ne))

  truncated_at :
      (n : ℕ) (payload : Bytes)
      → length payload ≤ max_frame_size
      → n < length_bytes + length payload
      → decode_frame cbor (take n (to_be_bytes length_bytes (length payload) ++ payload))
        ≡ err truncated
  truncated_at zero payload h lt = unfold decode_frame in refl
  truncated_at (suc zero) payload h lt = unfold decode_frame in refl
  truncated_at (suc (suc zero)) payload h lt = unfold decode_frame in refl
  truncated_at (suc (suc (suc zero))) payload h lt = unfold decode_frame in refl
  truncated_at (suc (suc (suc (suc m)))) payload h lt =
      rw (decode_frame_announced (length payload) (take m payload) h)
        (ground (arith, length-take m payload))

  -- Every proper prefix of a frame is refused as truncated.
  decode_frame_truncated :
      (message : Message) (frame : Bytes) (n : ℕ)
      → encode_frame cbor message ≡ ok frame
      → n < length frame
      → decode_frame cbor (take n frame) ≡ err truncated
  decode_frame_truncated message frame n h lt =
      let e = encode_frame-Encodes message frame h in
      rw e.shape (
        truncated_at n e.payload e.fits (
          omega (
            arith,
            ap length e.shape,
            length-append (to_be_bytes length_bytes (length e.payload)) e.payload,
          )))

  -- A frame that ends before its announced length is refused as truncated, and one with bytes after it
  -- as having trailing data.
  pub decode_frame_malformed :
      (message : Message) (frame extra : Bytes) (n : ℕ)
      → encode_frame cbor message ≡ ok frame
      → extra ≢ []
      → n < length frame
      → (decode_frame cbor (take n frame) ≡ err truncated)
        × (decode_frame cbor (frame ++ extra) ≡ err trailing_data)
  decode_frame_malformed message frame extra n h ne lt =
      (decode_frame_truncated message frame n h lt, decode_frame_trailing message frame extra h ne)
