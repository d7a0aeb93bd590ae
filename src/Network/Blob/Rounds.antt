-- ===== src/Network/Blob/Rounds.antt =====
-- One round of a blob request (crates/network/src/session.rs, crates/network/src/blob.rs): the next chunk and what `accept` does with it.
use superspace.Base.{
  ℕ, ◌+◌, ◌^◌, min, ◌≤◌, ◌<◌, ◌≡◌, refl, ◌∙◌, ap, sym, true, false, Option, none, some, List, [],
  ◌∷◌, ◌++◌, arith, ◌==◌, length, take, drop, length-append, length-take, take-drop,
  drop-length_append, map, ap₂, ltb, take_all,
}
use mathlib.Core.List.{append_assoc}
use superspace.Base.Bytes.{Bytes}
use superspace.Base.Result.{ok}
use superspace.Base.Text.{text_eq_refl}
use superspace.Protocol.Message.{Message, BlobChunk}
use superspace.Network.Blob.{
  BlobReceiver, Disk, Io, disk_margin_bytes, max_chunk_size, verify_hash, finalize, verified,
  publish, append, written, write, admitted, accept, read_blob_chunk,
}
use superspace.Network.Blob.Accept.{Continues, checked-eq-ok}

-- No call of the operating system fails, and there is room for the blob.
pub record IsCalm (size : ℕ) (env : Io) : Type 0 where
  pub makes : env.create_dir_all ≡ true
  pub stats : env.metadata ≡ true
  pub space : ℕ
  pub reports : env.available_space ≡ some space
  pub room : size + disk_margin_bytes ≤ space
  pub opens : env.open_partial ≡ true
  pub writes : env.write_all ≡ none
  pub syncs : env.sync_all ≡ true
  pub reads : env.read_partial ≡ true
  pub renames : env.rename ≡ true

-- Every message comes while the operating system answers in the same way.
abbrev pub under : Io → List Message → List (Io × Message)
under env = map (λ m. (env, m))

-- The bytes of a file that may be missing.
unfoldable pub stored : Option Bytes → Bytes
stored none = []
stored (some bytes) = bytes

-- The blob is in place.
pub record IsDone (content : Bytes) (self : BlobReceiver) (disk : Disk) : Type 0 where
  pub finished : self.complete ≡ true
  pub published : disk.final ≡ some content
  pub tidy : disk.partial ≡ none

pub length-zero : (xs : Bytes) → length xs ≡ 0 → xs ≡ []
length-zero [] h = refl
length-zero (x ∷ xs) h = absurd (omega arith)

module _ (hash : Bytes → Bytes) (env : Io) (content : Bytes)
    (calm : IsCalm (length content) env) where
  -- The receiver has the first part of the content on disk.
  pub record Has (self : BlobReceiver) (disk : Disk) (front rest : Bytes) : Type 0 where
    pub splits : content ≡ front ++ rest
    pub held : disk.partial ≡ some front
    pub offset : self.received ≡ length front
    pub sized : self.expected_size ≡ length content
    pub digest : hash content ≡ self.expected_hash
    pub opened : self.file ≡ true
    pub unfinished : self.complete ≡ false

  pub finalize-IsDone :
      (self : BlobReceiver) (disk : Disk)
      → disk.partial ≡ some content
      → hash content ≡ self.expected_hash
      → ((finalize hash env self disk).2 ≡ ok tt)
        × IsDone content (finalize hash env self disk).0 (finalize hash env self disk).1
  unfolding finalize verified publish verify_hash
  finalize-IsDone self disk whole digest = (
    ground (
      arith,
      calm.syncs,
      calm.reads,
      calm.renames,
      whole,
      digest,
      text_eq_refl self.expected_hash,
    ),
    ground (
      arith,
      calm.syncs,
      calm.reads,
      calm.renames,
      whole,
      digest,
      text_eq_refl self.expected_hash,
    ),
  )

  -- The next chunk of the rest.
  abbrev pub chunk_of : BlobReceiver → Bytes → ℕ → BlobChunk
  chunk_of self rest n = record {
    hash = self.expected_hash;
    offset = self.received;
    bytes = take n rest;
    complete = self.received + length (take n rest) == length content;
  }

  pub accept_last :
      (self : BlobReceiver) (disk : Disk) (front rest : Bytes) (n : ℕ)
      → Has self disk front rest
      → length content < 2 ^ 64
      → 0 < length rest
      → length rest ≤ n
      → n ≤ max_chunk_size
      → ((accept hash env self disk (chunk_of self rest n)).2 ≡ ok tt)
        × IsDone content
            (accept hash env self disk (chunk_of self rest n)).0
            (accept hash env self disk (chunk_of self rest n)).1
  unfolding accept admitted write written append
  accept_last self disk front rest n h small some_left whole bounded =
      let size : length content ≡ length front + length rest =
        ap length h.splits ∙ length-append front rest in
      let chunk = chunk_of self rest n in
      let bytes : take n rest ≡ rest = take_all n rest whole in
      let len : length (take n rest) ≡ length rest = ap length bytes in
      let ends : self.received + length (take n rest) ≡ length content =
        omega (arith, size, len, h.offset) in
      let c : Continues self chunk = record {
        unfinished = h.unfinished;
        opened = h.opened;
        same_hash = refl;
        next = refl;
        filled = omega (arith, len);
        bounded = omega (arith, len);
        fits = omega (arith, ends, h.sized);
        sized = omega (arith, ends);
        honest = ap (λ m. self.received + length (take n rest) == m) (sym h.sized);
      } in
      let admits = checked-eq-ok self chunk c in
      let self' = record self { received = self.received + length (take n rest) } in
      let disk' = record disk { partial = some (front ++ take n rest) } in
      let whole_file : some (front ++ take n rest) ≡ some content =
        ap some (ap (◌++◌ front) bytes ∙ sym h.splits) in
      let done = finalize-IsDone self' disk' whole_file h.digest in
      let runs : accept hash env self disk chunk ≡ finalize hash env self' disk' =
        ground (arith, admits, calm.writes, h.held, ends) in
      rw runs done

  pub accept_more :
      (self : BlobReceiver) (disk : Disk) (front rest : Bytes) (n : ℕ)
      → Has self disk front rest
      → length content < 2 ^ 64
      → 0 < n
      → n < length rest
      → n ≤ max_chunk_size
      → (self' : BlobReceiver) × (disk' : Disk) × (accept hash env self disk (chunk_of self rest n)
          ≡ (self', disk', ok tt))
        × Has self' disk' (front ++ take n rest) (drop n rest)
        × (self'.expected_hash ≡ self.expected_hash)
  unfolding accept admitted write written append
  accept_more self disk front rest n h small progress more bounded =
      let size : length content ≡ length front + length rest =
        ap length h.splits ∙ length-append front rest in
      let len : length (take n rest) ≡ n = omega (arith, length-take n rest) in
      let chunk = chunk_of self rest n in
      let next : self.received + length chunk.bytes < length content =
        omega (arith, size, len, h.offset) in
      let c : Continues self chunk = record {
        unfinished = h.unfinished;
        opened = h.opened;
        same_hash = refl;
        next = refl;
        filled = omega (arith, len);
        bounded = omega (arith, len);
        fits = omega (arith, next, h.sized);
        sized = omega arith;
        honest = ap (λ m. self.received + length (take n rest) == m) (sym h.sized);
      } in
      let admits = checked-eq-ok self chunk c in
      (
        record self { received = self.received + length chunk.bytes },
        record disk { partial = some (front ++ take n rest) },
        ground (arith, admits, calm.writes, h.held, next),
        record {
          splits =
              h.splits
              ∙ ap (◌++◌ front) (sym (take-drop n rest))
              ∙ sym (append_assoc front (take n rest) (drop n rest));
          held = refl;
          offset = omega (arith, h.offset, length-append front (take n rest));
          sized = h.sized;
          digest = h.digest;
          opened = h.opened;
          unfinished = h.unfinished;
        },
        refl,
      )

  -- The sender's next chunk.
  pub read_blob_chunk_rest :
      (self : BlobReceiver) (disk : Disk) (front rest : Bytes) (amount : ℕ)
      → Has self disk front rest
      → 0 < length rest
      → read_blob_chunk (some content) self.expected_hash self.received max_chunk_size amount
        ≡ ok (chunk_of self rest (min amount (min max_chunk_size max_chunk_size)))
  unfolding read_blob_chunk
  read_blob_chunk_rest self disk front rest amount h some_left =
      let size : length content ≡ length front + length rest =
        ap length h.splits ∙ length-append front rest in
      let behind : drop self.received content ≡ rest =
        ap₂ drop h.offset h.splits ∙ drop-length_append front rest in
      let inside : ltb self.received (length content) ≡ true = ground (arith, size, h.offset) in
      rw (inside, behind) refl
