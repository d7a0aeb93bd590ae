-- ===== src/Network/Transfer/Examples.antt =====
-- A transfer of two files (crates/network/src/transfer.rs), with the content as its own digest.
use superspace.Base.{
  ℕ, ◌≡◌, ◌≢◌, refl, Bool, true, false, Option, none, some, List, [], ◌∷◌, arith, ◌+◌,
}
use superspace.Base.Bytes.{Bytes}
use superspace.Base.Result.{Result, ok, err}
use superspace.Base.Text.{Text}
use superspace.Protocol.Message.{TransferEntry, TransferManifest, TransferChunk}
use superspace.Network.Blob.{Io, disk_margin_bytes}
use superspace.Network.Transfer.{
  TransferError, hash_mismatch, Files, put, ReceivingEntry, TransferReceiver, accept_entry,
  finish_check, resume_offsets,
}
use superspace.Network.Transfer.Begin.{Paths, begin, begin_entry}
use superspace.Network.Transfer.Integrity.{accept_all}
use superspace.Network.Transfer.Stuck.{Works, Corrupts, accept_entry-begin_entry_stuck}

abbrev self_digest : Bytes → Bytes
self_digest bytes = bytes

abbrev calm : Io
calm = record {
  create_dir_all = true;
  metadata = true;
  available_space = some (disk_margin_bytes + 4);
  open_partial = true;
  write_all = none;
  sync_all = true;
  read_partial = true;
  read_final = true;
  remove_file = true;
  rename = true;
}

abbrev file_a : TransferEntry
file_a = record { relative_path = b'a' ∷ []; size = 2; hash = 1 ∷ 2 ∷ [] }

abbrev file_b : TransferEntry
file_b = record { relative_path = b'b' ∷ []; size = 1; hash = 3 ∷ [] }

abbrev folder : TransferManifest
folder = record { id = 9; origin = 2; name = b'x' ∷ []; entries = file_a ∷ file_b ∷ [] }

-- The partial file stands beside the final one.
abbrev paths : Paths
paths = record {
  partial_path = λ i entry. b'p' ∷ entry.relative_path;
  final_path = λ i entry. entry.relative_path;
}

abbrev no_files : Files
no_files path = none

abbrev chunk : ℕ → ℕ → Bytes → TransferChunk
chunk index offset bytes = record {
  transfer_id = 9;
  entry_index = index;
  offset = offset;
  bytes = bytes;
}

abbrev started : Files × Result TransferError TransferReceiver
started = begin self_digest paths calm (λ i. calm) folder no_files

abbrev entry_of : TransferEntry → ReceivingEntry
entry_of entry = record {
  partial_path = b'p' ∷ entry.relative_path;
  final_path = entry.relative_path;
  file = true;
  received = 0;
  expected_size = entry.size;
  expected_hash = entry.hash;
  complete = false;
}

abbrev receiver : TransferReceiver
receiver = record {
  manifest = folder;
  entries = entry_of file_a ∷ entry_of file_b ∷ [];
  total_bytes = 3;
}

-- One file arrives in two pieces, and the other whole, after a failed attempt.
abbrev calls : List (Io × TransferChunk)
calls =
    (calm, chunk 0 0 (1 ∷ []))
    ∷ (record calm { rename = false }, chunk 0 1 (2 ∷ []))
    ∷ (calm, chunk 1 0 (3 ∷ []))
    ∷ []

both_arrive :
    let (last, ends) =
      accept_all self_digest
        ((calm, chunk 0 0 (1 ∷ 2 ∷ [])) ∷ (calm, chunk 1 0 (3 ∷ [])) ∷ [])
        receiver
        started.0 in
    (finish_check last ≡ ok tt)
    × (ends (b'a' ∷ []) ≡ some (1 ∷ 2 ∷ []))
    × (ends (b'b' ∷ []) ≡ some (3 ∷ []))
    × (resume_offsets last ≡ 2 ∷ 1 ∷ [])
unfolding accept_all finish_check superspace.Network.Transfer.accept begin
    superspace.Protocol.Message.validate superspace.Base.Text.trim
    superspace.Protocol.Paths.is_absolute superspace.Protocol.Paths.components resume_offsets
both_arrive = (refl, refl, refl, refl)

calm-Works : Works calm
calm-Works = record {
  makes = refl;
  stats = refl;
  opens = refl;
  writes = refl;
  syncs = refl;
  reads = refl;
}

-- The first byte of the first file is there.
abbrev half : Files
half = put (b'p' ∷ b'a' ∷ []) (some (1 ∷ [])) no_files

abbrev resumed : ReceivingEntry
resumed = record (entry_of file_a) { received = 1 }

resumed-Corrupts : Corrupts self_digest resumed half (1 ∷ []) (chunk 0 1 (7 ∷ []))
resumed-Corrupts = record {
  unfinished = refl;
  opened = refl;
  held = refl;
  durable = refl;
  next = refl;
  filled = omega arith;
  bounded = omega arith;
  last = refl;
  sized = omega arith;
  wrong = λ e. ground arith;
  absent = refl;
  apart = λ e. cc;
}

accept_entry-begin_entry_stuck_example :
    let (_, files', result) = accept_entry self_digest calm resumed half (chunk 0 1 (7 ∷ [])) in
    (result ≡ err hash_mismatch)
    × (begin_entry self_digest paths calm 0 file_a files' ≡ (files', err hash_mismatch))
accept_entry-begin_entry_stuck_example =
    accept_entry-begin_entry_stuck self_digest paths calm calm 0 file_a resumed half (1 ∷ [])
      (chunk 0 1 (7 ∷ [])) calm-Works calm-Works resumed-Corrupts refl refl refl refl
