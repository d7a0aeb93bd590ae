-- ===== src/Network/Blob/Accept.antt =====
-- Which chunks `accept` of crates/network/src/blob.rs takes, and what it does with the others.
use superspace.Base.{ℕ, ◌+◌, ◌≤◌, ◌<◌, ◌^◌, ◌≡◌, refl, inl, inr, true, false, arith, ◌==◌, length}
use superspace.Base.Bytes.{Bytes}
use superspace.Base.Result.{ok, err, Result-cases}
use superspace.Base.Text.{text_eq→≡, text_eq_refl}
use superspace.Protocol.Message.{BlobChunk}
use superspace.Network.Blob.{
  BlobReceiver, Disk, Io, BlobTransferError, max_chunk_size, checked, accept,
}

-- The chunk continues the blob, is neither empty nor too large, and says truly whether it ends it.
pub record Continues (self : BlobReceiver) (chunk : BlobChunk) : Type 0 where
  pub unfinished : self.complete ≡ false
  pub opened : self.file ≡ true
  pub same_hash : chunk.hash ≡ self.expected_hash
  pub next : chunk.offset ≡ self.received
  pub filled : 0 < length chunk.bytes
  pub bounded : length chunk.bytes ≤ max_chunk_size
  pub fits : self.received + length chunk.bytes ≤ self.expected_size
  pub sized : self.received + length chunk.bytes < 2 ^ 64
  pub honest : chunk.complete ≡ (self.received + length chunk.bytes == self.expected_size)

pub checked-Continues :
    (self : BlobReceiver) (chunk : BlobChunk) (ending : ℕ)
    → checked self chunk ≡ ok ending
    → Continues self chunk × (ending ≡ self.received + length chunk.bytes)
unfolding checked
checked-Continues self chunk ending h = (
  record {
    unfinished = ground arith;
    opened = ground arith;
    same_hash = text_eq→≡ chunk.hash self.expected_hash (ground arith);
    next = ground arith;
    filled = ground arith;
    bounded = ground arith;
    fits = ground arith;
    sized = ground arith;
    honest = ground arith;
  },
  ground arith,
)

pub checked-eq-ok :
    (self : BlobReceiver) (chunk : BlobChunk)
    → Continues self chunk
    → checked self chunk ≡ ok (self.received + length chunk.bytes)
unfolding checked
checked-eq-ok self chunk c = ground (
  arith,
  c.unfinished,
  c.opened,
  c.same_hash,
  c.next,
  c.filled,
  c.bounded,
  c.fits,
  c.sized,
  c.honest,
  text_eq_refl self.expected_hash,
)

-- A chunk that does not continue the blob is refused with an error, whatever the disk would have
-- answered, and neither the receiver nor its files change.
pub accept_refused :
    (hash : Bytes → Bytes) (env : Io) (self : BlobReceiver) (disk : Disk) (chunk : BlobChunk)
    → ¬ Continues self chunk
    → (e : BlobTransferError) × (accept hash env self disk chunk ≡ (self, disk, err e))
unfolding accept
accept_refused hash env self disk chunk bad = elim (Result-cases (checked self chunk)) [
  | inl (n, e) ↦ absurd (bad (checked-Continues self chunk n e).0)
  | inr (x, e) ↦ (x, rw e refl)
]
