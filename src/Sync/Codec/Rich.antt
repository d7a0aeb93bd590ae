-- ===== src/Sync/Codec/Rich.antt =====
-- Rich text of crates/sync/src/lib.rs: `encode_rich` against `decode_rich`.
use superspace.Base.{◌+◌, ◌^◌, ◌<◌, ◌≡◌, ◌≢◌, refl, some, [], ◌++◌, arith, length}
use superspace.Base.Bytes.{Bytes, to_le_bytes, from_le_bytes-to_le_bytes}
use superspace.Base.Result.{ok}
use superspace.Base.Text.{Text, IsString, as_bytes, from_utf8-as_bytes}
use superspace.Sync.Codec.{encode_rich, decode_rich, get_range}
use superspace.Sync.Codec.Ranges.{get_range-append, get_range-append_last}

abbrev frame : Bytes → Bytes → Bytes
frame plain rich = to_le_bytes 4 (length plain) ++ (plain ++ rich)

decode_frame :
    (plain rich : Text)
    → IsString plain
    → IsString rich
    → plain ≢ []
    → rich ≢ []
    → length (as_bytes plain) < 2 ^ 32
    → decode_rich (frame (as_bytes plain) (as_bytes rich)) ≡ ok (plain, rich)
unfolding decode_rich
decode_frame plain rich h k a b small =
    let p = as_bytes plain in
    let r = as_bytes rich in
    let n = from_le_bytes-to_le_bytes 4 (length p) small in
    let prefix : get_range (frame p r) 0 4 ≡ some (to_le_bytes 4 (length p)) =
      get_range-append [] (to_le_bytes 4 (length p)) (p ++ r) 0 4 refl refl in
    let first : get_range (frame p r) 4 (4 + length p) ≡ some p =
      get_range-append (to_le_bytes 4 (length p)) p r 4 (4 + length p) refl refl in
    let second : get_range (frame p r) (4 + length p) (length (frame p r)) ≡ some r =
      get_range-append_last (to_le_bytes 4 (length p) ++ p) r (4 + length p) (length (frame p r))
        (omega arith) refl in
    ground (
      arith,
      prefix,
      n,
      first,
      second,
      from_utf8-as_bytes plain h.scalars,
      from_utf8-as_bytes rich k.scalars,
    )

-- Rich text that was encoded is decoded to the same two texts.
pub decode_rich-encode_rich :
    (plain rich : Text) (bytes : Bytes)
    → IsString plain
    → IsString rich
    → encode_rich plain rich ≡ ok bytes
    → decode_rich bytes ≡ ok (plain, rich)
unfolding encode_rich
decode_rich-encode_rich plain rich bytes h k e =
    let shape : frame (as_bytes plain) (as_bytes rich) ≡ bytes = ground arith in
    rw (← shape) (decode_frame plain rich h k (ground arith) (ground arith) (ground arith))
