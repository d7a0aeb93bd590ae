-- ===== src/Network/Transfer/Begin.antt =====
-- `TransferReceiver::begin` of crates/network/src/transfer.rs: the entries are opened one after another,
-- each new, resumed or already complete. Creating the directories is a call that can fail.
use superspace.Base.{
  ℕ, suc, ◌+◌, ◌-◌, ◌^◌, min, Bool, true, false, not, Option, none, some, List, [], ◌∷◌, ltb, leb,
  ◌==◌, if◌then◌else◌, length,
}
use superspace.Base.Bytes.{Bytes}
use superspace.Base.Result.{Result, ok, err}
use superspace.Base.Text.{Text}
use superspace.Protocol.Message.{TransferEntry, TransferManifest, ProtocolError, validate}
use superspace.Network.Blob.{Io, disk_margin_bytes}
use superspace.Network.Transfer.{
  TransferError, manifest, io, insufficient_space, invalid_resume_state, size_overflow, Files, put,
  ReceivingEntry, TransferReceiver, Outcome, verify_hash, complete_entry, validate_single_component,
}

-- The two paths of the entry at an index.
pub record Paths : Type 0 where
  pub partial_path : ℕ → TransferEntry → Text
  pub final_path : ℕ → TransferEntry → Text

-- The files that a call leaves, and what it returns.
abbrev pub Call : Type 0 → Type 0
Call A = Files × Result TransferError A

abbrev pub and_then : {A B : Type 0} → Call A → (A → Files → Call B) → Call B
and_then (files, err error) f = (files, err error)
and_then (files, ok a) f = f a files

unfoldable pub outcome : Outcome → Call ReceivingEntry
outcome (entry, files, err error) = (files, err error)
outcome (entry, files, ok _) = (files, ok entry)

-- `required.checked_add(entry.size - received)`, left out where the final file was there.
unfoldable pub still_required : Bool → ℕ → ReceivingEntry → Option ℕ
still_required was_there required entry =
    if was_there
    then some required
    else if ltb (required + (entry.expected_size - entry.received)) (2 ^ 64)
    then some (required + (entry.expected_size - entry.received))
    else none

unfoldable pub exists : Option Bytes → Bool
exists none = false
exists (some content) = true

-- What the loop has gathered: the entries, the space that is needed, and the total size.
pub record Gathered : Type 0 where
  pub entries : List ReceivingEntry
  pub required : ℕ
  pub total_bytes : ℕ

unfoldable pub continue : Option ℕ → Files → (ℕ → Files → Call Gathered) → Call Gathered
continue none files rest = (files, err insufficient_space)
continue (some required) files rest = rest required files

unfoldable pub prepend : ReceivingEntry → Call Gathered → Call Gathered
prepend entry (files, err error) = (files, err error)
prepend entry (files, ok g) = (files, ok (record g { entries = entry ∷ g.entries }))

-- The check of the free space, and the receiver.
unfoldable pub ready : Io → TransferManifest → Call Gathered → Call TransferReceiver
ready env m (files, err error) = (files, err error)
ready env m (files, ok g) = elim env.available_space [
  | none ↦ (files, err io)
  | some space ↦
      if ltb space (min (g.required + disk_margin_bytes) (2 ^ 64 - 1))
      then (files, err insufficient_space)
      else (files, ok (record { manifest = m; entries = g.entries; total_bytes = g.total_bytes }))
]

module _ (hash : Bytes → Bytes) (paths : Paths) where
  unfoldable pub unopened : ℕ → TransferEntry → ℕ → ReceivingEntry
  unopened index entry received = record {
    partial_path = paths.partial_path index entry;
    final_path = paths.final_path index entry;
    file = false;
    received = received;
    expected_size = entry.size;
    expected_hash = entry.hash;
    complete = false;
  }

  -- The final file is there.
  unfoldable pub resumed_complete :
      Io → ℕ → TransferEntry → Bytes → Result TransferError ReceivingEntry
  unfolding unopened verify_hash
  resumed_complete env index entry content =
      if not env.metadata
      then err io
      else if not (length content == entry.size)
      then err invalid_resume_state
      else elim (verify_hash hash env.read_final (some content) entry.hash) [
        | err error ↦ err invalid_resume_state
        | ok _ ↦ ok (record (unopened index entry entry.size) { complete = true })
      ]

  -- An entry that is open at `received` bytes; if that is all, it is completed at once.
  unfoldable pub opened : Io → ℕ → TransferEntry → ℕ → Files → Call ReceivingEntry
  unfolding unopened complete_entry outcome
  opened env index entry received files =
      let receiving = record (unopened index entry received) { file = true } in
      if received == entry.size
      then outcome (complete_entry hash env receiving files)
      else (files, ok receiving)

  unfoldable pub begin_partial : Io → ℕ → TransferEntry → Files → Option Bytes → Call ReceivingEntry
  unfolding opened
  begin_partial env index entry files none =
      if env.open_partial
      then opened env index entry 0 (put (paths.partial_path index entry) (some []) files)
      else (files, err io)
  begin_partial env index entry files (some content) =
      if not env.metadata
      then (files, err io)
      else if not (leb (length content) entry.size)
      then (files, err invalid_resume_state)
      else if env.open_partial
      then opened env index entry (length content) files
      else (files, err io)

  unfoldable pub begin_final : Io → ℕ → TransferEntry → Files → Option Bytes → Call ReceivingEntry
  unfolding resumed_complete begin_partial
  begin_final env index entry files (some content) =
      (files, resumed_complete env index entry content)
  begin_final env index entry files none =
      begin_partial env index entry files (files (paths.partial_path index entry))

  unfoldable pub begin_entry : Io → ℕ → TransferEntry → Files → Call ReceivingEntry
  unfolding begin_final
  begin_entry env index entry files =
      if not env.create_dir_all
      then (files, err io)
      else begin_final env index entry files (files (paths.final_path index entry))

  -- `for (index, entry) in manifest.entries.iter().enumerate()`; the entries are collected behind the
  -- recursive call instead of being pushed.
  unfoldable pub begin_entries : (ℕ → Io) → ℕ → List TransferEntry → ℕ → ℕ → Files → Call Gathered
  unfolding begin_entry still_required exists continue prepend
  begin_entries env index [] required total files =
      (files, ok (record { entries = []; required = required; total_bytes = total }))
  begin_entries env index (entry ∷ rest) required total files =
      let was_there = exists (files (paths.final_path index entry)) in
      let after : Call Gathered =
        and_then (begin_entry (env index) index entry files) λ receiving files'.
          continue (still_required was_there required receiving) files' (λ required' files''.
            prepend receiving
              (begin_entries env (suc index) rest required' (total + entry.size) files'')) in
      if ltb (total + entry.size) (2 ^ 64) then after else (files, err size_overflow)

  -- The part of `begin` behind the checks of the manifest and of its name.
  unfoldable pub begin_checked :
      Io
      → (ℕ → Io)
      → TransferManifest
      → Files
      → Option ProtocolError
      → Result TransferError (Unit {0})
      → Call TransferReceiver
  unfolding begin_entries ready
  begin_checked env env_of m files (some error) single = (files, err (manifest error))
  begin_checked env env_of m files none (err error) = (files, err error)
  begin_checked env env_of m files none (ok _) =
      if not env.create_dir_all
      then (files, err io)
      else ready env m (begin_entries env_of 0 m.entries 0 0 files)

  unfoldable pub begin : Io → (ℕ → Io) → TransferManifest → Files → Call TransferReceiver
  unfolding begin_checked validate_single_component
  begin env env_of m files =
      begin_checked env env_of m files (validate m) (validate_single_component m.name)
