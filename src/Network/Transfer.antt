-- ===== src/Network/Transfer.antt =====
-- crates/network/src/transfer.rs: the receiver of a transfer of files. The regular files are a map
-- from paths to contents; how an entry's two paths are named is an argument. As for blobs, what the
-- operating system answers is an argument, and BLAKE3 is a parameter. The move of the finished
-- directory and the preparation of a transfer are left out.
pub mod Begin
pub mod Changes
pub mod Integrity
pub mod Entries
pub mod Opening
pub mod Stuck
mod Examples
use superspace.Base.{
  ℕ, zero, suc, ◌+◌, ◌*◌, ◌-◌, ◌^◌, min, Bool, true, false, not, ◌&&◌, ◌||◌, Option, none, some,
  List, [], ◌∷◌, ◌++◌, map, ltb, leb, ◌==◌, if◌then◌else◌, length, take,
}
use superspace.Base.Bytes.{Bytes}
use superspace.Base.Result.{Result, ok, err, ◌>>=◌, ◌>>◌, guard, ok_or}
use superspace.Base.Text.{Text, is_empty, text_eq}
use superspace.Protocol.Paths.{Component, normal, components}
use superspace.Protocol.Message.{
  TransferId, ContentHash, TransferEntry, TransferManifest, TransferChunk, ProtocolError, Checked,
  validate,
}
use superspace.Network.Blob.{Io, disk_margin_bytes, max_chunk_size}

-- The errors of receiving.
pub data TransferError : Type 0 where
  manifest : ProtocolError → TransferError
  io insufficient_space wrong_transfer unknown_entry wrong_offset invalid_chunk_size : TransferError
  hash_mismatch incomplete unsafe_destination invalid_resume_state origin_mismatch : TransferError
  size_overflow symbolic_link unsupported_source empty_source : TransferError
  too_many_entries source_changed : TransferError

-- A path as text, and the regular files.
abbrev pub Files : Type 0
Files = Text → Option Bytes

abbrev pub put : Text → Option Bytes → Files → Files
put path content files other = if text_eq other path then content else files other

pub record ReceivingEntry : Type 0 where
  pub partial_path : Text
  pub final_path : Text
  pub file : Bool
  pub received : ℕ
  pub expected_size : ℕ
  pub expected_hash : ContentHash
  pub complete : Bool

pub record TransferReceiver : Type 0 where
  pub manifest : TransferManifest
  pub entries : List ReceivingEntry
  pub total_bytes : ℕ

-- An entry with the files, and the result of a call.
abbrev pub Outcome : Type 0
Outcome = ReceivingEntry × Files × Result TransferError (Unit {0})

get : ℕ → List ReceivingEntry → Option ReceivingEntry
get i [] = none
get zero (e ∷ es) = some e
get (suc i) (e ∷ es) = get i es

set : ℕ → ReceivingEntry → List ReceivingEntry → List ReceivingEntry
set i e [] = []
set zero e (x ∷ xs) = e ∷ xs
set (suc i) e (x ∷ xs) = x ∷ set i e xs

abbrev appended : Option Bytes → Bytes → Option Bytes
appended none bytes = some bytes
appended (some old) bytes = some (old ++ bytes)

-- `validate_single_component`
is_single : List Component → Bool
is_single (normal n ∷ []) = true
is_single _ = false

pub validate_single_component : Text → Result TransferError (Unit {0})
unfolding is_single
validate_single_component name = guard (is_single (components name)) unsafe_destination

-- The guards of `accept` on the entry: the number of bytes that there are afterwards.
checked : ReceivingEntry → TransferChunk → Result TransferError ℕ
checked entry chunk = do
  guard (not (entry.complete || not (chunk.offset == entry.received))) wrong_offset
  guard
      (not (
        is_empty chunk.bytes
        || ltb max_chunk_size (length chunk.bytes)
        || ltb entry.expected_size (min (entry.received + length chunk.bytes) (2 ^ 64 - 1))))
      invalid_chunk_size
  guard entry.file incomplete
  ok (entry.received + length chunk.bytes)

module _ (hash : Bytes → Bytes) where
  pub verify_hash : Bool → Option Bytes → ContentHash → Result TransferError (Unit {0})
  verify_hash readable none expected = err io
  verify_hash readable (some bytes) expected =
      if not readable
      then err io
      else if text_eq (hash bytes) expected
      then ok tt
      else err hash_mismatch

  rename : Io → ReceivingEntry → Files → Outcome
  rename env entry files =
      if env.rename
      then (
        record entry { complete = true },
        put entry.final_path (files entry.partial_path) (put entry.partial_path none files),
        ok tt,
      )
      else (entry, files, err io)

  verified : Io → ReceivingEntry → Files → Result TransferError (Unit {0}) → Outcome
  unfolding rename
  verified env entry files (ok _) = rename env entry files
  verified env entry files (err error) = (entry, files, err error)

  -- `sync_all`, `drop(entry.file.take())`, `verify_hash` and `rename`.
  pub complete_entry : Io → ReceivingEntry → Files → Outcome
  unfolding verified verify_hash
  complete_entry env entry files =
      if not env.sync_all
      then (entry, files, err io)
      else verified env (record entry { file = false }) files
          (verify_hash env.read_partial (files entry.partial_path) entry.expected_hash)

  written : Io → ReceivingEntry → Files → ℕ → Outcome
  unfolding complete_entry
  written env entry files ending =
      let entry' = record entry { received = ending } in
      if ending == entry.expected_size
      then complete_entry env entry' files
      else (entry', files, ok tt)

  write : Io → Option ℕ → ReceivingEntry → Files → Bytes → ℕ → Outcome
  unfolding written
  write env (some n) entry files bytes ending = (
    entry,
    put entry.partial_path (appended (files entry.partial_path) (take n bytes)) files,
    err io,
  )
  write env none entry files bytes ending =
      written env entry (put entry.partial_path (appended (files entry.partial_path) bytes) files)
        ending

  accept_checked : Io → ReceivingEntry → Files → TransferChunk → Result TransferError ℕ → Outcome
  unfolding write
  accept_checked env entry files chunk (err error) = (entry, files, err error)
  accept_checked env entry files chunk (ok ending) =
      write env env.write_all entry files chunk.bytes ending

  pub accept_entry : Io → ReceivingEntry → Files → TransferChunk → Outcome
  unfolding accept_checked checked
  accept_entry env entry files chunk = accept_checked env entry files chunk (checked entry chunk)

  accept_at :
      Io
      → TransferReceiver
      → Files
      → TransferChunk
      → Option ReceivingEntry
      → TransferReceiver × Files × Result TransferError (Unit {0})
  unfolding accept_entry set
  accept_at env self files chunk none = (self, files, err unknown_entry)
  accept_at env self files chunk (some entry) =
      let (entry', files', result) = accept_entry env entry files chunk in
      (record self { entries = set chunk.entry_index entry' self.entries }, files', result)

  pub accept :
      Io
      → TransferReceiver
      → Files
      → TransferChunk
      → TransferReceiver × Files × Result TransferError (Unit {0})
  unfolding accept_at get
  accept env self files chunk =
      if not (chunk.transfer_id == self.manifest.id)
      then (self, files, err wrong_transfer)
      else accept_at env self files chunk (get chunk.entry_index self.entries)

pub resume_offsets : TransferReceiver → List ℕ
resume_offsets self = map (λ e. e.received) self.entries

all_complete : List ReceivingEntry → Bool
all_complete [] = true
all_complete (e ∷ es) = e.complete && all_complete es

-- The check of `finish`, before the directory is moved.
pub finish_check : TransferReceiver → Result TransferError (Unit {0})
unfolding all_complete
finish_check self = guard (all_complete self.entries) incomplete
