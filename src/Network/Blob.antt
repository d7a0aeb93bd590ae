-- ===== src/Network/Blob.antt =====
-- crates/network/src/blob.rs: the receiver of one content-addressed blob, which can be restarted.
-- `Disk` is the two files that a receiver's paths name; what the operating system answers to each
-- call is an argument (`Io`), so that every call can fail. A path is known by which of the two files
-- it names. BLAKE3 is a parameter; hashing a file in pieces is hashing it whole.
pub mod Accept
pub mod Steps
pub mod Integrity
pub mod Session
pub mod Rounds
pub mod Exchange
mod Examples
use superspace.Base.{
  ℕ, ◌+◌, ◌*◌, ◌-◌, ◌^◌, min, Bool, true, false, not, ◌&&◌, ◌||◌, Option, none, some, List, [], ◌∷◌,
  ◌++◌, ltb, leb, ◌==◌, if◌then◌else◌, length, take, drop,
}
use superspace.Base.Bytes.{Bytes}
use superspace.Base.Result.{Result, ok, err, ◌>>=◌, ◌>>◌, guard, ok_or}
use superspace.Base.Text.{is_empty, text_eq}
use superspace.Protocol.Message.{ContentHash, BlobChunk}

abbrev pub disk_margin_bytes : ℕ
disk_margin_bytes = 16 * 1024 * 1024

-- `MAX_CHUNK_SIZE` of crates/network/src/transfer.rs.
abbrev pub max_chunk_size : ℕ
max_chunk_size = 256 * 1024

pub data BlobTransferError : Type 0 where
  io insufficient_space invalid_partial existing_content_mismatch wrong_blob : BlobTransferError
  wrong_offset invalid_chunk hash_mismatch incomplete : BlobTransferError

-- The files at `partial_path` and `final_path`.
pub record Disk : Type 0 where
  pub partial : Option Bytes
  pub final : Option Bytes

-- `file` says whether the partial file is open for appending.
pub record BlobReceiver : Type 0 where
  pub expected_hash : ContentHash
  pub expected_size : ℕ
  pub received : ℕ
  pub file : Bool
  pub complete : Bool

-- What the operating system answers: whether a call succeeds, how much space there is, and how many
-- bytes a failing write has written before it failed.
pub record Io : Type 0 where
  pub create_dir_all : Bool
  pub metadata : Bool
  pub available_space : Option ℕ
  pub open_partial : Bool
  pub write_all : Option ℕ
  pub sync_all : Bool
  pub read_partial : Bool
  pub read_final : Bool
  pub remove_file : Bool
  pub rename : Bool

-- A receiver with its files, and the result of a call.
abbrev pub Outcome : Type 0
Outcome = BlobReceiver × Disk × Result BlobTransferError (Unit {0})

-- `let _ = fs::remove_file(&self.partial_path)`
remove_partial : Io → Disk → Disk
remove_partial env disk = if env.remove_file then record disk { partial = none } else disk

is_file : Option Bytes → Bool
is_file none = false
is_file (some bytes) = true

append : Option Bytes → Bytes → Option Bytes
append none bytes = some bytes
append (some old) bytes = some (old ++ bytes)

-- The guards of `accept`: the number of bytes that there are afterwards.
pub checked : BlobReceiver → BlobChunk → Result BlobTransferError ℕ
checked self chunk = do
  guard (not (self.complete || not (text_eq chunk.hash self.expected_hash))) wrong_blob
  guard (chunk.offset == self.received) wrong_offset
  guard (not (is_empty chunk.bytes || ltb max_chunk_size (length chunk.bytes))) invalid_chunk
  let ending = self.received + length chunk.bytes
  guard (ltb ending (2 ^ 64)) invalid_chunk
  guard (not (ltb self.expected_size ending)) invalid_chunk
  guard
      (if chunk.complete then ending == self.expected_size else not (ending == self.expected_size))
      invalid_chunk
  guard self.file incomplete
  ok ending

durable_offset : Io → Option Bytes → Result BlobTransferError ℕ
durable_offset env none = ok 0
durable_offset env (some bytes) = if env.metadata then ok (length bytes) else err io

-- The receiver that resumes at the durable offset, if the disk has room.
resumed : Io → ContentHash → ℕ → Disk → Result BlobTransferError BlobReceiver
unfolding durable_offset
resumed env expected_hash expected_size disk = do
  offset ← durable_offset env disk.partial
  guard (not (ltb expected_size offset)) invalid_partial
  space ← ok_or env.available_space io
  guard (not (ltb space (min (expected_size - offset + disk_margin_bytes) (2 ^ 64 - 1))))
      insufficient_space
  guard env.open_partial io
  ok (record {
    expected_hash = expected_hash;
    expected_size = expected_size;
    received = offset;
    file = true;
    complete = false;
  })

-- `create(true)` leaves an empty file where there was none.
created : Disk → Disk
unfolding append
created disk = record disk { partial = append disk.partial [] }

module _ (hash : Bytes → Bytes) where
  -- `verify_hash`, on a file that may be missing or unreadable.
  pub verify_hash : Bool → Option Bytes → ContentHash → Result BlobTransferError (Unit {0})
  verify_hash readable none expected = err io
  verify_hash readable (some bytes) expected =
      if not readable
      then err io
      else if text_eq (hash bytes) expected
      then ok tt
      else err hash_mismatch

  -- A failed rename counts as done if verified content is already in place.
  rename_failed : Io → BlobReceiver → Disk → Result BlobTransferError (Unit {0}) → Outcome
  unfolding remove_partial
  rename_failed env self disk (ok _) =
      (record self { complete = true }, remove_partial env disk, ok tt)
  rename_failed env self disk (err error) = (self, disk, err error)

  publish : Io → BlobReceiver → Disk → Outcome
  unfolding rename_failed is_file verify_hash
  publish env self disk =
      if env.rename
      then (record self { complete = true }, record { partial = none; final = disk.partial }, ok tt)
      else if is_file disk.final
      then rename_failed env self disk (verify_hash env.read_final disk.final self.expected_hash)
      else (self, disk, err io)

  -- The part of `finalize` behind the check of the partial file, by its result.
  verified : Io → BlobReceiver → Disk → Result BlobTransferError (Unit {0}) → Outcome
  unfolding publish remove_partial
  verified env self disk (ok _) = publish env self disk
  verified env self disk (err error) =
      (record self { received = 0 }, remove_partial env disk, err error)

  pub finalize : Io → BlobReceiver → Disk → Outcome
  unfolding verified verify_hash
  finalize env self disk =
      let closed = record self { file = false } in
      if self.file && not env.sync_all
      then (closed, disk, err io)
      else verified env closed disk (verify_hash env.read_partial disk.partial self.expected_hash)

  -- The part of `accept` behind the write.
  written : Io → BlobReceiver → Disk → BlobChunk → ℕ → Outcome
  unfolding finalize append
  written env self disk chunk ending =
      let self' = record self { received = ending } in
      let disk' = record disk { partial = append disk.partial chunk.bytes } in
      if chunk.complete then finalize env self' disk' else (self', disk', ok tt)

  write : Io → Option ℕ → BlobReceiver → Disk → BlobChunk → ℕ → Outcome
  unfolding written append
  write env (some n) self disk chunk ending =
      (self, record disk { partial = append disk.partial (take n chunk.bytes) }, err io)
  write env none self disk chunk ending = written env self disk chunk ending

  admitted : Io → BlobReceiver → Disk → BlobChunk → Result BlobTransferError ℕ → Outcome
  unfolding write
  admitted env self disk chunk (err error) = (self, disk, err error)
  admitted env self disk chunk (ok ending) = write env env.write_all self disk chunk ending

  pub accept : Io → BlobReceiver → Disk → BlobChunk → Outcome
  unfolding checked admitted
  accept env self disk chunk = admitted env self disk chunk (checked self chunk)

  -- `begin` where the final file is there already.
  existing : Io → ContentHash → ℕ → Disk → Bytes → Result BlobTransferError BlobReceiver
  unfolding verify_hash
  existing env expected_hash expected_size disk content =
      if not env.metadata
      then err io
      else if length content == expected_size
      then elim (verify_hash env.read_final (some content) expected_hash) [
        | err error ↦ err existing_content_mismatch
        | ok _ ↦ ok (record {
          expected_hash = expected_hash;
          expected_size = expected_size;
          received = expected_size;
          file = false;
          complete = true;
        })
      ]
      else err existing_content_mismatch

  -- A call that gives a receiver, with the files afterwards.
  opened :
      Io
      → Disk
      → Result BlobTransferError BlobReceiver
      → Disk × Result BlobTransferError BlobReceiver
  unfolding created finalize
  opened env disk (err error) = (disk, err error)
  opened env disk (ok self) =
      if self.received == self.expected_size
      then (let (self', disk', result) = finalize env self (created disk) in
          elim result [ err error ↦ (disk', err error) | ok _ ↦ (disk', ok self') ])
      else (created disk, ok self)

  begin_final :
      Io → ContentHash → ℕ → Disk → Option Bytes → Disk × Result BlobTransferError BlobReceiver
  unfolding existing opened resumed
  begin_final env expected_hash expected_size disk (some content) =
      (disk, existing env expected_hash expected_size disk content)
  begin_final env expected_hash expected_size disk none =
      opened env disk (resumed env expected_hash expected_size disk)

  pub begin : Io → ContentHash → ℕ → Disk → Disk × Result BlobTransferError BlobReceiver
  unfolding begin_final
  begin env expected_hash expected_size disk =
      if not env.create_dir_all
      then (disk, err io)
      else begin_final env expected_hash expected_size disk disk.final

-- The path that `finish` gives is `final_path`.
pub finish : BlobReceiver → Result BlobTransferError (Unit {0})
finish self = if self.complete then ok tt else err incomplete

-- `read_blob_chunk`; a read gives at most `some_bytes`, which is not 0, where it gives fewer than
-- were asked for.
pub read_blob_chunk : Option Bytes → ContentHash → ℕ → ℕ → ℕ → Result BlobTransferError BlobChunk
read_blob_chunk source hash offset requested some_bytes = do
  guard (not (requested == 0)) invalid_chunk
  content ← ok_or source io
  guard (ltb offset (length content)) wrong_offset
  let bytes = take (min some_bytes (min requested max_chunk_size)) (drop offset content)
  ok (record {
    hash = hash;
    offset = offset;
    bytes = bytes;
    complete = offset + length bytes == length content;
  })
