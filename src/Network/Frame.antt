-- ===== src/Network/Frame.antt =====
-- crates/network/src/frame.rs: one protocol message as a frame, a 4-byte big-endian length and the
-- encoded message. The encoding (CBOR, by the crate `ciborium`) and the QUIC streams (`quinn`) are
-- parameters.
pub mod RoundTrip
pub mod Streams
mod Examples
use superspace.Base.{
  ℕ, ◌+◌, ◌*◌, ◌-◌, ◌^◌, Bool, not, Option, none, some, List, [], ◌∷◌, ◌++◌, ltb, leb, ◌==◌,
  if◌then◌else◌, length, take, drop,
}
use superspace.Base.Bytes.{Bytes, to_be_bytes, from_be_bytes}
use superspace.Base.Result.{Result, ok, err, ◌>>=◌, ◌>>◌, guard, ok_or, map_err}
use superspace.Protocol.Message.{Message}

abbrev pub max_frame_size : ℕ
max_frame_size = 512 * 1024

abbrev pub length_bytes : ℕ
length_bytes = 4

pub data FrameError : Type 0 where
  too_large truncated trailing_data codec read write : FrameError

-- `ciborium::into_writer` into a vector and `ciborium::from_reader` from a slice.
pub record Codec : Type 0 where
  pub into_writer : Message → Option Bytes
  pub from_reader : Bytes → Option Message

module _ (cbor : Codec) where
  open cbor use {into_writer, from_reader}

  pub encode_frame : Message → Result FrameError Bytes
  encode_frame message = do
    payload ← ok_or (into_writer message) codec
    guard (not (ltb max_frame_size (length payload))) too_large
    guard (ltb (length payload) (2 ^ 32)) too_large
    ok (to_be_bytes length_bytes (length payload) ++ payload)

  pub decode_frame : Bytes → Result FrameError Message
  decode_frame frame = do
    guard (not (ltb (length frame) length_bytes)) truncated
    let announced = from_be_bytes (take length_bytes frame)
    guard (not (ltb max_frame_size announced)) too_large
    guard (length frame == length_bytes + announced)
        (if ltb (length frame) (length_bytes + announced) then truncated else trailing_data)
    ok_or (from_reader (drop length_bytes frame)) codec

  -- The two ends of a stream: what they do to the state `S` of the connection.
  module _ {S : Type 0} (write_all : Bytes → S → Option S)
      (read_exact : ℕ → S → Option (Bytes × S)) where
    pub write_frame : Message → S → Result FrameError S
    unfolding encode_frame
    write_frame message stream = do
      frame ← encode_frame message
      ok_or (write_all frame stream) write

    pub read_frame : S → Result FrameError (Message × S)
    read_frame stream = do
      (prefix, stream') ← ok_or (read_exact length_bytes stream) read
      let announced = from_be_bytes prefix
      guard (not (ltb max_frame_size announced)) too_large
      (payload, stream'') ← ok_or (read_exact announced stream') read
      message ← ok_or (from_reader payload) codec
      ok (message, stream'')
