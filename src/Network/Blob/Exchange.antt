-- ===== src/Network/Blob/Exchange.antt =====
-- A blob that is sent chunk by chunk (crates/network/src/blob.rs), resumed where a receiver stopped.
use superspace.Base.{
  ℕ, zero, suc, ◌+◌, ◌^◌, min, ◌≤◌, ◌<◌, ◌≡◌, refl, ◌∙◌, ap, sym, inl, inr, Bool, true, false, none,
  some, [], ◌++◌, arith, ◌==◌, if◌then◌else◌, length, take, drop, Bool-cases, length-append,
  length-take, length-drop, ap₂, leb,
}
use mathlib.Core.List.{append-nil}
use superspace.Base.Bytes.{Bytes}
use superspace.Base.Result.{ok}
use superspace.Protocol.Message.{BlobChunk, ContentHash}
use superspace.Network.Blob.{
  BlobReceiver, Disk, Io, max_chunk_size, finalize, append, accept, begin, begin_final, opened,
  created, resumed, durable_offset, read_blob_chunk, finish,
}
use superspace.Network.Blob.Session.{Response, serve, request_loop, request_blob, continue}
use superspace.Network.Blob.Rounds.{
  IsCalm, under, stored, IsDone, length-zero, Has, finalize-IsDone, chunk_of, accept_last,
  accept_more, read_blob_chunk_rest,
}

module _ (hash : Bytes → Bytes) (env : Io) (content : Bytes)
    (calm : IsCalm (length content) env) where
  -- One round of both loops, by what `accept` gives.
  round :
      (fuel : ℕ) (amount : ℕ → ℕ) (self : BlobReceiver) (disk : Disk) (rest : Bytes) (n : ℕ)
      → read_blob_chunk
          (some content)
          self.expected_hash
          self.received
          max_chunk_size
          (amount self.received)
        ≡ ok (chunk_of hash env content calm self rest n)
      → self.received + length (take n rest) < 2 ^ 64
      → let ending = self.received + length (take n rest) in
        request_loop hash
          (under env (serve (suc fuel) (some content) amount self.expected_hash self.received))
          self
          disk
        ≡ continue hash
            (ending == length content)
            (accept hash env self disk (chunk_of hash env content calm self rest n))
            (request_loop hash (
              under env (
                if ending == length content
                then []
                else serve fuel (some content) amount self.expected_hash ending)))
  unfolding serve request_loop
  round fuel amount self disk rest n chunk small = ground (arith, chunk, small)

  round_last :
      (self : BlobReceiver) (disk : Disk) (chunk : BlobChunk) (complete : Bool)
      (loop : BlobReceiver → Disk → Response)
      → complete ≡ true
      → ((accept hash env self disk chunk).2 ≡ ok tt)
        × IsDone content (accept hash env self disk chunk).0 (accept hash env self disk chunk).1
      → let (self', disk', result) =
          continue hash complete (accept hash env self disk chunk) loop in
        (result ≡ ok tt) × IsDone content self' disk'
  unfolding continue finish
  round_last self disk chunk complete loop e h =
      (ground (arith, e, h.0, h.1.finished), ground (arith, e, h.0, h.1))

  round_more :
      (self self' : BlobReceiver) (disk disk' : Disk) (chunk : BlobChunk) (complete : Bool)
      (loop : BlobReceiver → Disk → Response)
      → complete ≡ false
      → accept hash env self disk chunk ≡ (self', disk', ok tt)
      → continue hash complete (accept hash env self disk chunk) loop ≡ loop self' disk'
  unfolding continue
  round_more self self' disk disk' chunk complete loop e h = rw (e, h) refl

  request_loop-IsDone :
      (fuel : ℕ) (amount : ℕ → ℕ) (self : BlobReceiver) (disk : Disk) (front rest : Bytes)
      → ((n : ℕ) → 0 < amount n)
      → length content < 2 ^ 64
      → Has hash env content calm self disk front rest
      → 0 < length rest
      → length rest ≤ fuel
      → let messages = serve fuel (some content) amount self.expected_hash self.received in
        let (self', disk', result) = request_loop hash (under env messages) self disk in
        (result ≡ ok tt) × IsDone content self' disk'
  request_loop-IsDone zero amount self disk front rest reads small h some_left enough =
      absurd (omega arith)
  request_loop-IsDone (suc fuel) amount self disk front rest reads small h some_left enough =
      let n = min (amount self.received) (min max_chunk_size max_chunk_size) in
      let size : length content ≡ length front + length rest =
        ap length h.splits ∙ length-append front rest in
      let progress = reads self.received in
      let len = length-take n rest in
      let here =
        round fuel amount self disk rest n
          (read_blob_chunk_rest hash env content calm self disk front rest (amount self.received) h
            some_left)
          (omega (arith, size, len, h.offset)) in
      elim (Bool-cases (leb (length rest) n)) [
        | inl last ↦
            let ends : (self.received + length (take n rest) == length content) ≡ true =
              ground (arith, size, len, h.offset, last) in
            let done =
              accept_last hash env content calm self disk front rest n h small some_left
                (ground (arith, last)) (omega arith) in
            rw here
              (round_last self disk (chunk_of hash env content calm self rest n) _ _ ends done)
        | inr more ↦
            let goes_on : (self.received + length (take n rest) == length content) ≡ false =
              ground (arith, size, len, h.offset, more) in
            let (self', disk', taken, has, same) =
              accept_more hash env content calm self disk front rest n h small
                (omega (arith, progress)) (ground (arith, more)) (omega arith) in
            let later =
              request_loop-IsDone fuel amount self' disk' (front ++ take n rest) (drop n rest) reads
                small has (ground (arith, length-drop n rest, more))
                (omega (arith, length-drop n rest, progress)) in
            let at : self'.received ≡ self.received + length (take n rest) =
              omega (arith, has.offset, h.offset, length-append front (take n rest)) in
            let messages : (if self.received + length (take n rest) == length content
                  then []
                  else serve fuel (some content) amount self.expected_hash
                      (self.received + length (take n rest)))
                ≡ serve fuel (some content) amount self'.expected_hash self'.received =
              rw goes_on (ap₂ (serve fuel (some content) amount) (sym same) (sym at)) in
            let runs =
              here
              ∙ round_more self self' disk disk' (chunk_of hash env content calm self rest n) _ _
                  goes_on taken
              ∙ ap (λ ms. request_loop hash (under env ms) self' disk') messages in
            rw runs later
      ]

  abbrev fresh : ContentHash → ℕ → BlobReceiver
  fresh digest offset = record {
    expected_hash = digest;
    expected_size = length content;
    received = offset;
    file = true;
    complete = false;
  }

  begin_opened :
      (digest : ContentHash) (disk : Disk) (rest : Bytes)
      → disk.final ≡ none
      → content ≡ stored disk.partial ++ rest
      → begin hash env digest (length content) disk
        ≡ opened hash env disk (ok (fresh digest (length (stored disk.partial))))
  unfolding begin begin_final resumed durable_offset stored
  begin_opened digest disk rest absent splits =
      let size = ap length splits ∙ length-append (stored disk.partial) rest in
      ground (arith, absent, calm.makes, calm.stats, calm.reports, calm.room, calm.opens, size)

  created-stored : (disk : Disk) → (created disk).partial ≡ some (stored disk.partial)
  unfolding created append stored
  created-stored disk = ground (arith, append-nil (stored disk.partial))

  -- A receiver that starts or restarts with the first part of a blob on disk, and asks a peer that
  -- has the blob, ends with the whole blob at the final path, whatever sizes the peer's reads have;
  -- no call of the operating system fails on the way, and there is room.
  pub begin-request_blob_completes :
      (digest : ContentHash) (disk : Disk) (rest : Bytes) (amount : ℕ → ℕ)
      → disk.final ≡ none
      → content ≡ stored disk.partial ++ rest
      → hash content ≡ digest
      → length content < 2 ^ 64
      → ((n : ℕ) → 0 < amount n)
      → (self : BlobReceiver) × (files : Disk) × (begin hash env digest (length content) disk
          ≡ (files, ok self))
        × (let messages = serve (length content) (some content) amount digest self.received in
            let (self', files', result) = request_blob hash (under env messages) self files in
            (result ≡ ok tt) × IsDone content self' files')
  unfolding request_blob
  begin-request_blob_completes digest disk rest amount absent splits right small reads =
      let front = stored disk.partial in
      let self = fresh digest (length front) in
      let size : length content ≡ length front + length rest =
        ap length splits ∙ length-append front rest in
      let starts = begin_opened digest disk rest absent splits in
      elim (Bool-cases (length front == length content)) [
        | inl whole ↦
            let all : content ≡ front =
              splits
              ∙ ap (◌++◌ front) (length-zero rest (ground (arith, whole, size)))
              ∙ append-nil front in
            let (fine, done) =
              finalize-IsDone hash env content calm self (created disk)
                (created-stored disk ∙ ap some (sym all)) right in
            (
              (finalize hash env self (created disk)).0,
              (finalize hash env self (created disk)).1,
              unfold opened in ground (arith, starts, whole, fine),
              unfold finish in ground (arith, done.finished, done),
            )
        | inr part ↦
            let has : Has hash env content calm self (created disk) front rest = record {
              splits = splits;
              held = created-stored disk;
              offset = refl;
              sized = refl;
              digest = right;
              opened = refl;
              unfinished = refl;
            } in
            (
              self,
              created disk,
              unfold opened in ground (arith, starts, part),
              rw (has.unfinished) (
                  request_loop-IsDone (length content) amount self (created disk) front rest reads
                    small has (ground (arith, part, size)) (omega (arith, size))),
            )
      ]
