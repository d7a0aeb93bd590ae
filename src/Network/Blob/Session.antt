-- ===== src/Network/Blob/Session.antt =====
-- The two ends of a blob request in crates/network/src/session.rs: `BlobRequest::serve` sends the
-- chunks and `request_blob` receives them. Opening and closing the QUIC streams is left out; the
-- frames carry the messages in order (Network/Frame/Streams).
use superspace.Base.{
  ℕ, zero, suc, ◌+◌, ◌^◌, Bool, Option, List, [], ◌∷◌, ltb, if◌then◌else◌, length,
}
use superspace.Base.Bytes.{Bytes}
use superspace.Base.Result.{Result, ok, err, map_err}
use superspace.Protocol.Message.{Message, ContentHash}
use superspace.Network.Frame.{FrameError}
use superspace.Network.Blob.{
  BlobReceiver, Disk, Io, BlobTransferError, Outcome, max_chunk_size, read_blob_chunk, accept,
  finish,
}

-- `Incoming` without the reason.
pub data BlobSessionError : Type 0 where
  incoming : BlobSessionError
  frame : FrameError → BlobSessionError
  transfer : BlobTransferError → BlobSessionError
  stream unexpected_message : BlobSessionError

-- The messages that are sent before the loop ends, by its end or by an error; `amount` says how much
-- a read at an offset gives. Each round sends a byte at least, so that the size of the source is
-- fuel enough.
unfoldable pub serve : ℕ → Option Bytes → (ℕ → ℕ) → ContentHash → ℕ → List Message
unfolding read_blob_chunk
serve zero source amount hash offset = []
serve (suc fuel) source amount hash offset =
    elim (read_blob_chunk source hash offset max_chunk_size (amount offset)) [
      | err error ↦ []
      | ok chunk ↦
          let ending = offset + length chunk.bytes in
          let rest = serve fuel source amount hash ending in
          if ltb ending (2 ^ 64)
          then (Message.blob_chunk chunk ∷ (if chunk.complete then [] else rest))
          else []
    ]

-- The receiver, its files, and the result of the request.
abbrev pub Response : Type 0
Response = BlobReceiver × Disk × Result BlobSessionError (Unit {0})

-- `receiver.finish().map_err(BlobSessionError::Transfer)`
abbrev pub finished : BlobReceiver → Disk → Response
finished self disk = (self, disk, map_err transfer (finish self))

module _ (hash : Bytes → Bytes) where
  -- What follows `accept`: the error is passed on, the last chunk ends the loop.
  unfoldable pub continue : Bool → Outcome → (BlobReceiver → Disk → Response) → Response
  continue complete (self, disk, err error) loop = (self, disk, err (transfer error))
  continue complete (self, disk, ok _) loop =
      if complete then finished self disk else loop self disk

  -- `loop { read_frame ... }`, on the messages that arrive, each with what the operating system
  -- answers; a stream that ends early is a failed read.
  unfoldable pub request_loop : List (Io × Message) → BlobReceiver → Disk → Response
  unfolding continue accept
  request_loop [] self disk = (self, disk, err (frame FrameError.read))
  request_loop ((env, Message.blob_chunk chunk) ∷ rest) self disk =
      continue chunk.complete (accept hash env self disk chunk) (request_loop rest)
  request_loop ((env, _) ∷ rest) self disk = (self, disk, err unexpected_message)

  unfoldable pub request_blob : List (Io × Message) → BlobReceiver → Disk → Response
  unfolding request_loop
  request_blob messages self disk =
      if self.complete then finished self disk else request_loop messages self disk
