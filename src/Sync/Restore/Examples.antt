-- ===== src/Sync/Restore/Examples.antt =====
-- `restore_history_value` of crates/sync/src/lib.rs on an example: a copy of HTML goes through the blob
-- store. The digest of its bytes is 64 times the letter a, that of other bytes is no such text.
use superspace.Base.{
  ℕ, ◌≡◌, refl, ◌≢◌, inl, inr, true, false, Option, none, some, List, [], ◌∷◌, arith, if◌then◌else◌,
  Bool-cases, ◌++◌,
}
use superspace.Base.Bytes.{Bytes}
use superspace.Base.Result.{ok, err}
use superspace.Base.Text.{Text, text_eq, text_eq→≡, text_eq_refl, IsString}
use superspace.Protocol.Message.{ClipboardEvent, ClipboardFormat, ClipboardContent}
use superspace.Network.Replication
use superspace.Platform.Clipboard.{ClipboardValue, digest_input}
use superspace.Storage.Entry.{ClipboardEntry, ClipboardKind}
use superspace.Storage.Blob.{BlobHash, BlobStore, Io, parse, put, read}
use superspace.Sync.Calls.{Stored}
use superspace.Sync.Codec.{Png, blob, encode_value}
use superspace.Sync.Parts.{ClipboardSync, Services, stored, entry_of}
use superspace.Sync.Restore.{restore_history_value}
use superspace.Sync.Restore.Pasting.{ok_of, IsDigest, restore_history_value-stored}

abbrev sixteen : Text
sixteen =
    b'a' ∷ b'a' ∷ b'a' ∷ b'a' ∷ b'a' ∷ b'a' ∷ b'a' ∷ b'a' ∷ b'a' ∷ b'a' ∷ b'a' ∷ b'a' ∷ b'a' ∷ b'a'
    ∷ b'a' ∷ b'a' ∷ []

abbrev plain : Text
plain = b'p' ∷ []

abbrev markup : Text
markup = b'm' ∷ []

plain-IsString : IsString plain
unfolding superspace.Base.Text.as_bytes
plain-IsString = record { scalars = (ground arith, tt); sized = omega arith }

markup-IsString : IsString markup
unfolding superspace.Base.Text.as_bytes
markup-IsString = record { scalars = (ground arith, tt); sized = omega arith }

abbrev copied : ClipboardValue
copied = ClipboardValue.html plain markup

abbrev payload : Bytes
payload = 1 ∷ 0 ∷ 0 ∷ 0 ∷ b'p' ∷ b'm' ∷ []

abbrev copied_hash : Text
copied_hash = sixteen ++ (sixteen ++ (sixteen ++ sixteen))

abbrev digest : Bytes → BlobHash
digest bytes = if text_eq bytes payload then copied_hash else b'x' ∷ bytes

payload-free : (b : Bytes) → digest b ≡ digest payload → b ≡ payload
payload-free b h = elim (Bool-cases (text_eq b payload)) [
  | inl same ↦ text_eq→≡ b payload same
  | inr other ↦ absurd (ground (arith, rw other at h))
]

payload-IsDigest : IsDigest digest payload
unfolding parse superspace.Base.Text.as_bytes
payload-IsDigest = record { parsed = refl; free = payload-free }

abbrev no_png : Png
no_png = record { write_image = λ w h r. none; read_info = λ limit bytes. none }

abbrev calm : Io
calm = record {
  create_new = true;
  write_all = none;
  sync_all = true;
  rename = true;
  remove_file = true;
}

abbrev pid : Text
pid = b'7' ∷ []

abbrev services : Services ClipboardValue (List ClipboardEntry) BlobStore
services = record {
  os = record { read = λ b. (b, ok b); write = λ v b. (v, ok tt) };
  insert = λ entry history. (entry ∷ history, ok true);
  put = λ bytes blobs.
      ((put digest calm pid bytes blobs).0, ok_of (put digest calm pid bytes blobs).1);
  hash = λ bytes. bytes;
  png = no_png;
  to_lowercase = λ t. t;
  debug_assertions = false;
}

abbrev empty : BlobStore
empty name = none

abbrev start : ClipboardSync ClipboardValue (List ClipboardEntry) BlobStore
start = record {
  local_device = 1;
  monitor = record { backend = copied; last_digest = none };
  ledger = Replication.new 1 0;
  history = [];
  blobs = empty;
}

abbrev kept : Stored
kept = record { kind = ClipboardKind.html; text = some plain; blob_hash = some copied_hash }

abbrev event : ClipboardEvent
event = record {
  id = 7;
  origin = 1;
  timestamp = record { physical_millis = 100; logical = 0 };
  format = ClipboardFormat.html;
  content = ClipboardContent.inline payload;
}

-- The hash is there, and the blob is not.
restore_lost :
    restore_history_value digest no_png (entry_of services 1 event kept none false) empty ≡ err blob
unfolding restore_history_value entry_of parse read superspace.Base.Text.as_bytes
restore_lost = refl

restore_history_value-stored_example :
    restore_history_value digest no_png
      (entry_of services 1 event kept none false)
      (put digest calm pid payload empty).0
    ≡ ok copied
unfolding stored encode_value digest_input put superspace.Base.Text.as_bytes
restore_history_value-stored_example =
    restore_history_value-stored services digest calm pid copied
      (record { format = ClipboardFormat.html; bytes = payload }) start
      (record start { blobs = (put digest calm pid payload empty).0 }) kept 1 event none false
      (λ bytes blobs. refl) payload-IsDigest (λ name p. tt) (λ w i r b e. cc)
      (plain-IsString, markup-IsString) tt (λ e. cc) refl refl
