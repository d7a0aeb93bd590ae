-- ===== src/Sync/Codec/Examples.antt =====
-- The payload formats of crates/sync/src/lib.rs on examples, with a small format in place of PNG: the
-- sizes in front of the pixels.
use superspace.Base.{
  ℕ, ◌≤◌, ◌≡◌, ◌≢◌, refl, Bool, true, false, Option, none, some, List, [], ◌∷◌, arith, length, ◌*◌,
}
use superspace.Base.Bytes.{Bytes}
use superspace.Base.Result.{ok, err}
use superspace.Base.Text.{Text}
use superspace.Protocol.Message.{ClipboardFormat}
use superspace.Platform.Clipboard.{ClipboardValue, image, files, digest_input, all_absolute}
use superspace.Sync.Codec.{
  SyncError, invalid_files, Png, PngReader, PngFrame, EncodedValue, encode_value, decode_value,
  decode_paths, decode_loop, max_decoded_image_bytes,
}
use superspace.Sync.Codec.Values.{PngReads, decode_value-encode_value}
use superspace.Sync.Codec.Paths.{decode_paths_safe, decode_loop_total}

abbrev write_image : ℕ → ℕ → Bytes → Option Bytes
write_image width height rgba = some (width ∷ height ∷ rgba)

read_info : ℕ → Bytes → Option PngReader
read_info limit (width ∷ height ∷ rgba) = some (record {
  output_buffer_size = some (length rgba);
  next_frame = some (record {
    is_rgba = true;
    is_eight_bit = true;
    width = width;
    height = height;
    buffer_size = length rgba;
    buffer = rgba;
  });
})
read_info limit _ = none

abbrev plain_png : Png
plain_png = record { write_image = write_image; read_info = read_info }

plain_png-PngReads : PngReads plain_png
unfolding read_info
plain_png-PngReads width height rgba bytes h fits = ground (arith, h)

abbrev pixel : ClipboardValue
pixel = image 1 1 (255 ∷ 0 ∷ 0 ∷ 255 ∷ [])

abbrev pixel_encoded : EncodedValue
pixel_encoded = record { format = ClipboardFormat.png; bytes = 1 ∷ 1 ∷ 255 ∷ 0 ∷ 0 ∷ 255 ∷ [] }

decode_value-encode_value_example :
    decode_value plain_png ClipboardFormat.png (1 ∷ 1 ∷ 255 ∷ 0 ∷ 0 ∷ 255 ∷ []) ≡ ok pixel
unfolding encode_value digest_input
decode_value-encode_value_example =
    decode_value-encode_value plain_png pixel pixel_encoded plain_png-PngReads
      (omega arith, omega arith) (omega arith) (λ e. cc) refl

abbrev root_a : Text
root_a = b'/' ∷ b'a' ∷ []

abbrev one_path : Bytes
one_path = 2 ∷ 0 ∷ 0 ∷ 0 ∷ 0 ∷ 0 ∷ 0 ∷ 0 ∷ b'/' ∷ b'a' ∷ []

one_path_decoded : decode_paths one_path ≡ ok (files (root_a ∷ []))
unfolding decode_paths superspace.Sync.Codec.get_range superspace.Base.Text.from_utf8
    superspace.Protocol.Paths.is_absolute digest_input
one_path_decoded = refl

cut_path_refused : decode_paths (2 ∷ 0 ∷ 0 ∷ 0 ∷ 0 ∷ 0 ∷ 0 ∷ 0 ∷ b'/' ∷ []) ≡ err invalid_files
unfolding decode_paths superspace.Sync.Codec.get_range
cut_path_refused = refl

decode_paths_safe_example :
    (ps : List Text) × (files (root_a ∷ []) ≡ files ps) × (ps ≢ []) × (all_absolute ps ≡ true)
decode_paths_safe_example = decode_paths_safe one_path (files (root_a ∷ [])) one_path_decoded

decode_loop_total_example : decode_loop 10 one_path 0 ≢ none
decode_loop_total_example = decode_loop_total one_path
