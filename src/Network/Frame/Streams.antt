-- ===== src/Network/Frame/Streams.antt =====
-- Frames on a stream (crates/network/src/frame.rs): what one side writes, the other side reads.
use superspace.Base.{
  ℕ, ◌+◌, ◌/◌, ◌%◌, ◌*◌, ◌≡◌, refl, ap, ◌∙◌, Option, some, zero, suc, inl, inr, Option-cases, List,
  [], ◌∷◌, ◌++◌, arith, length,
}
use mathlib.Core.List.{append-nil, append_assoc}
use superspace.Base.Bytes.{Bytes, to_be_bytes}
use superspace.Base.Result.{Result, ok, Result-cases, ◌>>=◌}
use superspace.Protocol.Message.{Message}
use superspace.Network.Frame.{Codec, FrameError, encode_frame, write_frame, read_frame}
use superspace.Network.Frame.RoundTrip.{encode_frame-Encodes}

-- A reliable ordered stream, as QUIC's are: its state holds the bytes that are written and not yet
-- read; a write appends, and a read takes the number of bytes that it asks for from the front.
pub record Stream : Type 1 where
  pub State : Type 0
  pub write_all : Bytes → State → Option State
  pub read_exact : ℕ → State → Option (Bytes × State)
  pub buffered : State → Bytes
  pub written :
      (bytes : Bytes) (s t : State) → write_all bytes s ≡ some t → buffered t ≡ buffered s ++ bytes
  pub exact :
      (n : ℕ) (s : State) (front rest : Bytes)
      → buffered s ≡ front ++ rest
      → length front ≡ n
      → (t : State) × (read_exact n s ≡ some (front, t)) × (buffered t ≡ rest)

module _ (cbor : Codec) (stream : Stream) where
  open stream use {State, write_all, read_exact, buffered, written, exact}

  -- A frame at the front of the stream is read whole, and nothing behind it.
  read_frame_front :
      (message : Message) (frame rest : Bytes) (s : State)
      → ((payload : Bytes)
          → cbor.into_writer message ≡ some payload
          → cbor.from_reader payload ≡ some message)
      → encode_frame cbor message ≡ ok frame
      → buffered s ≡ frame ++ rest
      → (t : State) × (read_frame cbor write_all read_exact s ≡ ok (message, t))
        × (buffered t ≡ rest)
  unfolding read_frame
  read_frame_front message frame rest s reads h e =
      let x = encode_frame-Encodes cbor message frame h in
      let n = length x.payload in
      let (s1, r1, b1) =
        exact 4 s (to_be_bytes 4 n) (x.payload ++ rest)
          (e ∙ ap (λ f. f ++ rest) x.shape ∙ append_assoc (to_be_bytes 4 n) x.payload rest) refl in
      let (s2, r2, b2) = exact n s1 x.payload rest b1 refl in
      let announced : n % 256
            + 256
              * (n / 256 % 256
                  + 256 * (n / 256 / 256 % 256 + 256 * (n / 256 / 256 / 256 % 256 + 0)))
          ≡ n =
        omega (arith, x.fits) in
      (s2, ground (arith, r1, r2, announced, reads x.payload x.encoded, x.fits), b2)

  -- One message after another.
  unfoldable pub write_frames : List Message → State → Result FrameError State
  write_frames [] s = ok s
  write_frames (m ∷ ms) s = write_frame cbor write_all read_exact m s >>= write_frames ms

  pub read_frames : ℕ → State → Result FrameError (List Message × State)
  read_frames zero s = ok ([], s)
  read_frames (suc n) s = do
    (m, t) ← read_frame cbor write_all read_exact s
    (ms, u) ← read_frames n t
    ok (m ∷ ms, u)

  -- The bytes are the frames of the messages, one after another.
  Buffers : List Message → Bytes → Type 0
  Buffers [] bytes = bytes ≡ []
  Buffers (m ∷ ms) bytes =
      (frame : Bytes) × (rest : Bytes) × (encode_frame cbor m ≡ ok frame)
      × (bytes ≡ frame ++ rest)
      × Buffers ms rest

  write_frame-buffered :
      (m : Message) (s t : State)
      → write_frame cbor write_all read_exact m s ≡ ok t
      → (frame : Bytes) × (encode_frame cbor m ≡ ok frame) × (buffered t ≡ buffered s ++ frame)
  unfolding write_frame
  write_frame-buffered m s t h = elim (Result-cases (encode_frame cbor m)) [
    | inl (frame, e) ↦ elim (Option-cases (write_all frame s)) [
      | inl lost ↦ absurd (ground (arith, e, lost))
      | inr (t', w) ↦ (frame, e, ground (arith, e, w, written frame s t' w))
    ]
    | inr (error, e) ↦ absurd (ground (arith, e))
  ]

  write_frames-buffered :
      (ms : List Message) (s t : State)
      → write_frames ms s ≡ ok t
      → (bytes : Bytes) × (buffered t ≡ buffered s ++ bytes) × Buffers ms bytes
  unfolding write_frames Buffers
  write_frames-buffered [] s t h = ([], ground (arith, append-nil (buffered s)), refl)
  write_frames-buffered (m ∷ ms) s t h =
      elim (Result-cases (write_frame cbor write_all read_exact m s)) [
        | inr (error, e) ↦ absurd (ground (arith, e))
        | inl (s', e) ↦
            let (frame, f, b) = write_frame-buffered m s s' e in
            let (bytes, c, r) = write_frames-buffered ms s' t (rw e at h) in
            (
              frame ++ bytes,
              c ∙ ap (λ x. x ++ bytes) b ∙ append_assoc (buffered s) frame bytes,
              (frame, bytes, f, refl, r),
            )
      ]

  module _
      (reads : (m : Message) (payload : Bytes)
        → cbor.into_writer m ≡ some payload
        → cbor.from_reader payload ≡ some m) where
    read_frames-buffered :
        (ms : List Message) (s : State)
        → Buffers ms (buffered s)
        → (t : State) × (read_frames (length ms) s ≡ ok (ms, t)) × (buffered t ≡ [])
    unfolding read_frames Buffers
    read_frames-buffered [] s h = (s, refl, h)
    read_frames-buffered (m ∷ ms) s (frame, rest, e, b, r) =
        let (t, rd, bt) = read_frame_front m frame rest s (reads m) e b in
        let (u, rds, bu) = read_frames-buffered ms t (rw bt r) in (u, rw (rd, rds) refl, bu)

    -- Messages written one after another to an empty stream are read back in order, and leave the
    -- stream empty; the stream is reliable and ordered, and CBOR reads back what it wrote.
    pub read_frames-write_frames :
        (ms : List Message) (s t : State)
        → buffered s ≡ []
        → write_frames ms s ≡ ok t
        → (u : State) × (read_frames (length ms) t ≡ ok (ms, u)) × (buffered u ≡ [])
    read_frames-write_frames ms s t empty h =
        let (bytes, b, r) = write_frames-buffered ms s t h in
        read_frames-buffered ms t (rw (b, empty) r)
