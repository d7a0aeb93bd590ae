-- ===== src/Sync/Codec/Values.antt =====
-- `encode_value` against `decode_value` of crates/sync/src/lib.rs.
use superspace.Base.{
  ℕ, ◌≤◌, ◌≡◌, ◌≢◌, true, none, some, inl, inr, arith, length, take-length_self, Option-cases,
}
use superspace.Base.Bytes.{Bytes}
use superspace.Base.Result.{ok, Result-cases}
use superspace.Base.Text.{from_utf8-as_bytes}
use superspace.Platform.Clipboard.{ClipboardValue, text, html, rtf, image, files, digest_input}
use superspace.Platform.Clipboard.Digest.{IsTyped}
use superspace.Sync.Codec.{
  Png, EncodedValue, encode_value, decode_value, encode_rich, max_decoded_image_bytes,
}
use superspace.Sync.Codec.Rich.{decode_rich-encode_rich}

-- The decoder reads what the encoder wrote, while the image fits the limit.
abbrev pub PngReads : Png → Type 0
PngReads png =
    (width height : ℕ) (rgba bytes : Bytes)
    → png.write_image width height rgba ≡ some bytes
    → length rgba ≤ max_decoded_image_bytes
    → png.read_info max_decoded_image_bytes bytes
      ≡ some (record {
        output_buffer_size = some (length rgba);
        next_frame = some (record {
          is_rgba = true;
          is_eight_bit = true;
          width = width;
          height = height;
          buffer_size = length rgba;
          buffer = rgba;
        });
      })

-- The value is no image that is larger than the decoder's limit.
abbrev pub FitsDecoder : ClipboardValue → Type 0
FitsDecoder (image width height rgba) = length rgba ≤ max_decoded_image_bytes
FitsDecoder _ = Unit

-- A valid text, rich text or image that could be encoded is decoded to itself; an image has to fit
-- the decoder's limit, and PNG reads back what it wrote.
pub decode_value-encode_value :
    (png : Png) (v : ClipboardValue) (e : EncodedValue)
    → PngReads png
    → IsTyped v
    → FitsDecoder v
    → digest_input v ≢ none
    → encode_value png v ≡ ok e
    → decode_value png e.format e.bytes ≡ ok v
unfolding encode_value decode_value digest_input
decode_value-encode_value png (text t) e reads u fits valid h =
    ground (arith, from_utf8-as_bytes t u.scalars)
decode_value-encode_value png (html plain rich) e reads u fits valid h =
    elim (Result-cases (encode_rich plain rich)) [
      | inl (b, r) ↦ ground (arith, r, decode_rich-encode_rich plain rich b u.0 u.1 r)
      | inr (x, r) ↦ ground (arith, r)
    ]
decode_value-encode_value png (rtf plain rich) e reads u fits valid h =
    elim (Result-cases (encode_rich plain rich)) [
      | inl (b, r) ↦ ground (arith, r, decode_rich-encode_rich plain rich b u.0 u.1 r)
      | inr (x, r) ↦ ground (arith, r)
    ]
decode_value-encode_value png (image w h r) e reads u fits valid enc =
    elim (Option-cases (png.write_image w h r)) [
      | inl none_written ↦ absurd (ground (arith, none_written))
      | inr (b, written) ↦ ground (arith, written, reads w h r b written fits, take-length_self r)
    ]
decode_value-encode_value png (files ps) e reads u fits valid h = cc
