-- ===== src/Network/Frame/Examples.antt =====
-- Frames of crates/network/src/frame.rs on examples, with a small codec in place of CBOR and a queue
-- of bytes in place of a QUIC stream.
use superspace.Base.{
  ℕ, ◌≡◌, refl, Option, none, some, List, [], ◌∷◌, ◌++◌, arith, if◌then◌else◌, length, take, drop,
  take-length_append, drop-length_append, length-append, leb, ◌==◌,
}
use superspace.Base.Bytes.{Bytes}
use superspace.Base.Result.{ok, err}
use superspace.Protocol.Message.{Message}
use superspace.Network.Frame.{
  Codec, truncated, trailing_data, too_large, encode_frame, decode_frame, write_frame,
}
use superspace.Network.Frame.RoundTrip.{decode_frame-encode_frame, decode_frame_malformed}
use superspace.Network.Frame.Streams.{Stream, write_frames, read_frames, read_frames-write_frames}

append_written : (bytes s t : Bytes) → some (s ++ bytes) ≡ some t → t ≡ s ++ bytes
append_written bytes s t h = ground (arith, h)

-- Acknowledgements and cancellations, as a tag and the id.
into_writer : Message → Option Bytes
into_writer (Message.acknowledge id) = some (0 ∷ id ∷ [])
into_writer (Message.cancel_transfer id) = some (1 ∷ id ∷ [])
into_writer _ = none

from_reader : Bytes → Option Message
from_reader (tag ∷ id ∷ []) =
    if tag == 0
    then some (Message.acknowledge id)
    else if tag == 1
    then some (Message.cancel_transfer id)
    else none
from_reader _ = none

abbrev small : Codec
small = record { into_writer = into_writer; from_reader = from_reader }

small_reads :
    (m : Message) (payload : Bytes) → into_writer m ≡ some payload → from_reader payload ≡ some m
unfolding into_writer from_reader
small_reads m payload h = ground arith

read_exact : ℕ → Bytes → Option (Bytes × Bytes)
read_exact n s = if leb n (length s) then some (take n s, drop n s) else none

read_exact-front :
    (n : ℕ) (s front rest : Bytes)
    → s ≡ front ++ rest
    → length front ≡ n
    → (t : Bytes) × (read_exact n s ≡ some (front, t)) × (t ≡ rest)
unfolding read_exact
read_exact-front n s front rest e h = (
  rest,
  ground (
    arith,
    e,
    h,
    take-length_append front rest,
    drop-length_append front rest,
    length-append front rest,
  ),
  refl,
)

abbrev queue : Stream
queue = record {
  State = Bytes;
  write_all = λ bytes s. some (s ++ bytes);
  read_exact = read_exact;
  buffered = λ s. s;
  written = append_written;
  exact = read_exact-front;
}

abbrev ack : Message
ack = Message.acknowledge 7

abbrev ack_frame : Bytes
ack_frame = 0 ∷ 0 ∷ 0 ∷ 2 ∷ 0 ∷ 7 ∷ []

ack_encoded : encode_frame small ack ≡ ok ack_frame
unfolding encode_frame into_writer
ack_encoded = refl

announced_too_large : decode_frame small (255 ∷ 0 ∷ 0 ∷ 0 ∷ []) ≡ err too_large
unfolding decode_frame
announced_too_large = refl

decode_frame-encode_frame_example : decode_frame small ack_frame ≡ ok ack
decode_frame-encode_frame_example =
    decode_frame-encode_frame small ack ack_frame (small_reads ack) ack_encoded

decode_frame_malformed_example :
    (decode_frame small (take 5 ack_frame) ≡ err truncated)
    × (decode_frame small (ack_frame ++ 9 ∷ []) ≡ err trailing_data)
decode_frame_malformed_example =
    decode_frame_malformed small ack ack_frame (9 ∷ []) 5 ack_encoded (λ e. cc) (omega arith)

abbrev sent : List Message
sent = ack ∷ Message.cancel_transfer 3 ∷ []

abbrev written_bytes : Bytes
written_bytes = ack_frame ++ 0 ∷ 0 ∷ 0 ∷ 2 ∷ 1 ∷ 3 ∷ []

sent_written : write_frames small queue sent [] ≡ ok written_bytes
unfolding write_frames write_frame into_writer
sent_written = refl

read_frames-write_frames_example :
    (u : Bytes) × (read_frames small queue 2 written_bytes ≡ ok (sent, u)) × (u ≡ [])
read_frames-write_frames_example =
    read_frames-write_frames small queue small_reads sent [] written_bytes refl sent_written
