-- ===== src/Sync/Codec.antt =====
-- The payload formats of crates/sync/src/lib.rs: how a clipboard value becomes bytes and back.
-- The crate `png` is a parameter. A usize has 64 bits, so that `usize::try_from` of a u32 or a u64
-- succeeds.
pub mod Ranges
pub mod Rich
pub mod Paths
pub mod Values
mod Examples
use superspace.Base.{
  ℕ, zero, suc, ◌+◌, ◌*◌, ◌-◌, ◌^◌, Bool, true, false, not, ◌&&◌, ◌||◌, Option, none, some, List,
  [], ◌∷◌, ◌++◌, ltb, leb, if◌then◌else◌, length, take, drop,
}
use superspace.Base.Bytes.{Bytes, to_le_bytes, from_le_bytes}
use superspace.Base.Result.{Result, ok, err, ◌>>=◌, ◌>>◌, guard, ok_or, map_err}
use superspace.Base.Text.{Text, as_bytes, from_utf8, is_empty}
use superspace.Protocol.Message.{ClipboardFormat}
use superspace.Protocol.Paths.{is_absolute}
use superspace.Storage.Entry.{StorageError}
use superspace.Platform.Clipboard.{
  ClipboardValue, text, html, rtf, image, files, ClipboardError, invalid_content, digest_input,
}

pub data SyncError : Type 0 where
  clipboard : ClipboardError → SyncError
  storage : StorageError → SyncError
  blob replication files_require_transfer unexpected_content content_mismatch invalid_text :
      SyncError
  invalid_image image_too_large invalid_files text_too_large : SyncError

abbrev pub max_decoded_image_bytes : ℕ
max_decoded_image_bytes = 128 * 1024 * 1024

-- `bytes.get(from..to)`
pub get_range : Bytes → ℕ → ℕ → Option Bytes
get_range bytes from to =
    if leb from to && leb to (length bytes) then some (take (to - from) (drop from bytes)) else none

abbrev pub checked_add : ℕ → ℕ → Option ℕ
checked_add a b = if ltb (a + b) (2 ^ 64) then some (a + b) else none

-- `value.digest()?`, whose result is not used.
check_digest : ClipboardValue → Result SyncError (Unit {0})
check_digest value = elim (digest_input value) [
  | none ↦ err (clipboard invalid_content)
  | some _ ↦ ok tt
]

pub encode_rich : Text → Text → Result SyncError Bytes
encode_rich plain rich = do
  guard (not (is_empty plain || is_empty rich)) invalid_text
  guard (ltb (length (as_bytes plain)) (2 ^ 32)) text_too_large
  ok (to_le_bytes 4 (length (as_bytes plain)) ++ (as_bytes plain ++ as_bytes rich))

pub decode_rich : Bytes → Result SyncError (Text × Text)
decode_rich bytes = do
  prefix ← ok_or (get_range bytes 0 4) invalid_text
  boundary ← ok_or (checked_add 4 (from_le_bytes prefix)) text_too_large
  plain_bytes ← ok_or (get_range bytes 4 boundary) invalid_text
  plain ← ok_or (from_utf8 plain_bytes) invalid_text
  rich_bytes ← ok_or (get_range bytes boundary (length bytes)) invalid_text
  rich ← ok_or (from_utf8 rich_bytes) invalid_text
  guard (not (is_empty plain || is_empty rich)) invalid_text
  ok (plain, rich)

path_bytes : List Text → Bytes
path_bytes [] = []
path_bytes (p ∷ ps) = (to_le_bytes 8 (length (as_bytes p)) ++ as_bytes p) ++ path_bytes ps

pub encode_paths : ClipboardValue → Bytes
unfolding path_bytes
encode_paths (files paths) = path_bytes paths
encode_paths _ = []

-- One round of the loop in `decode_paths`: a path and the next offset.
decode_path : Bytes → ℕ → Result SyncError (Text × ℕ)
decode_path bytes offset = do
  length_bytes ← ok_or (get_range bytes offset (offset + 8)) invalid_files
  end ← ok_or (checked_add (offset + 8) (from_le_bytes length_bytes)) invalid_files
  path_slice ← ok_or (get_range bytes (offset + 8) end) invalid_files
  path ← ok_or (from_utf8 path_slice) invalid_files
  guard (is_absolute path) invalid_files
  ok (path, end)

-- `while offset < bytes.len()`, with fuel; `none` means that the fuel ran out. The paths are
-- collected behind the loop instead of being pushed to a vector.
pub decode_loop : ℕ → Bytes → ℕ → Option (Result SyncError (List Text))
decode_loop zero bytes offset = if ltb offset (length bytes) then none else some (ok [])
decode_loop (suc fuel) bytes offset =
    let round : Option (Result SyncError (List Text)) = elim (decode_path bytes offset) [
      | err error ↦ some (err error)
      | ok (path, next) ↦ elim (decode_loop fuel bytes next) [
        | none ↦ none
        | some (err error) ↦ some (err error)
        | some (ok rest) ↦ some (ok (path ∷ rest))
      ]
    ] in
    if ltb offset (length bytes) then round else some (ok [])

-- What follows the loop: the list as a value, checked.
check_paths : Option (Result SyncError (List Text)) → Result SyncError ClipboardValue
check_paths none = err invalid_files
check_paths (some (err error)) = err error
check_paths (some (ok paths)) = elim (digest_input (files paths)) [
  | none ↦ err invalid_files
  | some _ ↦ ok (files paths)
]

-- Each round reads eight bytes at least, so that the number of bytes is fuel enough.
pub decode_paths : Bytes → Result SyncError ClipboardValue
unfolding decode_loop decode_path check_paths
decode_paths bytes = check_paths (decode_loop (length bytes) bytes 0)

-- What `png::Reader::next_frame` gives: the buffer that it filled and the `OutputInfo`.
pub record PngFrame : Type 0 where
  pub is_rgba : Bool
  pub is_eight_bit : Bool
  pub width : ℕ
  pub height : ℕ
  pub buffer_size : ℕ
  pub buffer : Bytes

pub record PngReader : Type 0 where
  pub output_buffer_size : Option ℕ
  pub next_frame : Option PngFrame

pub record Png : Type 0 where
  -- an RGBA8 image written by `png::Encoder`
  pub write_image : ℕ → ℕ → Bytes → Option Bytes
  -- `Decoder::new_with_limits` and `read_info`
  pub read_info : ℕ → Bytes → Option PngReader

pub record EncodedValue : Type 0 where
  pub format : ClipboardFormat
  pub bytes : Bytes

module _ (png : Png) where
  unfoldable pub encode_value : ClipboardValue → Result SyncError EncodedValue
  unfolding encode_rich check_digest
  encode_value (text t) = ok (record { format = ClipboardFormat.text; bytes = as_bytes t })
  encode_value (html plain rich) = do
    bytes ← encode_rich plain rich
    ok (record { format = ClipboardFormat.html; bytes = bytes })
  encode_value (rtf plain rich) = do
    bytes ← encode_rich plain rich
    ok (record { format = ClipboardFormat.rtf; bytes = bytes })
  encode_value (image width height rgba) = do
    check_digest (image width height rgba)
    guard (ltb width (2 ^ 32)) image_too_large
    guard (ltb height (2 ^ 32)) image_too_large
    bytes ← ok_or (png.write_image width height rgba) invalid_image
    ok (record { format = ClipboardFormat.png; bytes = bytes })
  encode_value (files paths) = err files_require_transfer

  pub decode_png : Bytes → Result SyncError ClipboardValue
  unfolding check_digest
  decode_png bytes = do
    reader ← ok_or (png.read_info max_decoded_image_bytes bytes) invalid_image
    size ← ok_or reader.output_buffer_size image_too_large
    guard (not (ltb max_decoded_image_bytes size)) image_too_large
    info ← ok_or reader.next_frame invalid_image
    guard (info.is_rgba && info.is_eight_bit) invalid_image
    let value = image info.width info.height (take info.buffer_size info.buffer)
    check_digest value
    ok value

  unfoldable pub decode_value : ClipboardFormat → Bytes → Result SyncError ClipboardValue
  unfolding decode_rich decode_png
  decode_value ClipboardFormat.text bytes = do
    t ← ok_or (from_utf8 bytes) invalid_text
    guard (not (is_empty t)) invalid_text
    ok (text t)
  decode_value ClipboardFormat.html bytes = do
    (plain, rich) ← decode_rich bytes
    ok (html plain rich)
  decode_value ClipboardFormat.rtf bytes = do (plain, rich) ← decode_rich bytes; ok (rtf plain rich)
  decode_value ClipboardFormat.png bytes = decode_png bytes
  decode_value ClipboardFormat.files bytes = err unexpected_content
