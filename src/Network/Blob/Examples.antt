-- ===== src/Network/Blob/Examples.antt =====
-- A blob receiver of crates/network/src/blob.rs on examples, with the content as its own digest.
use superspace.Base.{suc, ◌≡◌, refl, ◌⊎◌, true, false, none, some, List, [], ◌∷◌, arith, ◌+◌}
use superspace.Base.Bytes.{Bytes}
use superspace.Base.Result.{ok, err}
use superspace.Protocol.Message.{BlobChunk}
use superspace.Network.Blob.{
  BlobReceiver, Disk, Io, BlobTransferError, incomplete, hash_mismatch, wrong_offset,
  disk_margin_bytes, begin, accept, finish,
}
use superspace.Network.Blob.Accept.{accept_refused}
use superspace.Network.Blob.Steps.{Verifies, Publishes}
use superspace.Network.Blob.Integrity.{accept_all, begin-accept_all_verified}
use superspace.Network.Blob.Session.{serve, request_blob}
use superspace.Network.Blob.Rounds.{IsCalm, IsDone, under}
use superspace.Network.Blob.Exchange.{begin-request_blob_completes}

abbrev self_digest : Bytes → Bytes
self_digest bytes = bytes

abbrev calm : Io
calm = record {
  create_dir_all = true;
  metadata = true;
  available_space = some (disk_margin_bytes + 4);
  open_partial = true;
  write_all = none;
  sync_all = true;
  read_partial = true;
  read_final = true;
  remove_file = true;
  rename = true;
}

-- A write that fails after one byte.
abbrev full_disk : Io
full_disk = record calm { write_all = some 1 }

abbrev content : Bytes
content = 1 ∷ 2 ∷ 3 ∷ 4 ∷ []

-- Two bytes are there from an earlier attempt.
abbrev resumable : Disk
resumable = record { partial = some (1 ∷ 2 ∷ []); final = none }

abbrev receiver : BlobReceiver
receiver = record {
  expected_hash = content;
  expected_size = 4;
  received = 2;
  file = true;
  complete = false;
}

abbrev chunk : Bytes → BlobChunk
chunk bytes = record { hash = content; offset = 2; bytes = bytes; complete = true }

resumes : begin self_digest calm content 4 resumable ≡ (resumable, ok receiver)
unfolding begin
resumes = refl

corrupt_is_deleted :
    let (self, disk, result) = accept self_digest calm receiver resumable (chunk (3 ∷ 5 ∷ [])) in
    (result ≡ err hash_mismatch) × (disk.partial ≡ none) × (disk.final ≡ none) × (self.received ≡ 0)
unfolding accept
corrupt_is_deleted = (refl, refl, refl, refl)

accept_refused_example :
    (e : BlobTransferError) × (accept self_digest calm receiver resumable
        (record (chunk (3 ∷ 4 ∷ [])) { offset = 1 })
      ≡ (receiver, resumable, err e))
accept_refused_example =
    accept_refused self_digest calm receiver resumable (record (chunk (3 ∷ 4 ∷ [])) { offset = 1 })
      (λ c. absurd (omega (arith, c.next)))

abbrev calls : List (Io × BlobChunk)
calls = (full_disk, chunk (3 ∷ 4 ∷ [])) ∷ (calm, chunk (3 ∷ 4 ∷ [])) ∷ []

begin-accept_all_verified_example :
    let (last, files) = accept_all self_digest calls receiver resumable in
    Publishes self_digest content resumable files
    × ((finish last ≡ err incomplete)
        ⊎ ((finish last ≡ ok tt) × Verifies self_digest content files.final))
begin-accept_all_verified_example =
    begin-accept_all_verified self_digest calm content 4 resumable resumable receiver calls resumes

calm-IsCalm : IsCalm 4 calm
calm-IsCalm = record {
  makes = refl;
  stats = refl;
  space = disk_margin_bytes + 4;
  reports = refl;
  room = omega arith;
  opens = refl;
  writes = refl;
  syncs = refl;
  reads = refl;
  renames = refl;
}

begin-request_blob_completes_example :
    (self : BlobReceiver) × (files : Disk) × (begin self_digest calm content 4 resumable
      ≡ (files, ok self))
    × (let messages = serve 4 (some content) suc content self.received in
        let (self', files', result) = request_blob self_digest (under calm messages) self files in
        (result ≡ ok tt) × IsDone content self' files')
unfolding superspace.Network.Blob.Rounds.stored
begin-request_blob_completes_example =
    begin-request_blob_completes self_digest calm content calm-IsCalm content resumable (3 ∷ 4 ∷ [])
      suc refl refl refl (omega arith) (λ n. omega arith)
