-- ===== src/Sync/Codec/Paths.antt =====
-- File lists of crates/sync/src/lib.rs: `encode_paths` against `decode_paths`, and what any
-- accepted list of paths is.
use superspace.Base.{
  ℕ, zero, suc, ◌+◌, ◌≤◌, ◌≡◌, ◌≢◌, true, Option, none, some, List, [], arith, length, inl, inr,
}
use superspace.Base.Bytes.{Bytes}
use superspace.Base.Result.{Result, ok, err, Result-cases}
use superspace.Base.Text.{Text}
use superspace.Protocol.Paths.{is_absolute}
use superspace.Platform.Clipboard.{ClipboardValue, files, digest_input, all_absolute}
use superspace.Sync.Codec.{
  SyncError, decode_paths, decode_path, check_paths, decode_loop, get_range,
}

-- A successful round moves on by eight bytes at least, and reads an absolute path.
decode_path_moves :
    (bytes : Bytes) (offset : ℕ) (p : Text) (next : ℕ)
    → decode_path bytes offset ≡ ok (p, next)
    → (offset + 8 ≤ next) × (next ≤ length bytes) × (is_absolute p ≡ true)
unfolding decode_path get_range
decode_path_moves bytes offset p next h = (ground arith, ground arith, ground arith)

-- Fuel for every byte that is left is enough.
decode_loop_fuel :
    (fuel : ℕ) (bytes : Bytes) (offset : ℕ)
    → length bytes ≤ fuel + offset
    → decode_loop fuel bytes offset ≢ none
unfolding decode_loop
decode_loop_fuel zero bytes offset h = ground arith
decode_loop_fuel (suc fuel) bytes offset h = elim (Result-cases (decode_path bytes offset)) [
  | inr (error, e) ↦ rw e (ground arith)
  | inl ((p, next), e) ↦ rw e (
      ground (
        arith,
        decode_loop_fuel fuel bytes next
            (omega (arith, (decode_path_moves bytes offset p next e).0)),
      ))
]

check_paths-files :
    (r : Option (Result SyncError (List Text))) (v : ClipboardValue)
    → check_paths r ≡ ok v
    → (ps : List Text) × (v ≡ files ps) × (ps ≢ []) × (all_absolute ps ≡ true)
unfolding check_paths digest_input
check_paths-files none v h = cc
check_paths-files (some (err error)) v h = cc
check_paths-files (some (ok ps)) v h = (ps, ground arith, ground arith, ground arith)

-- The loop ends on any bytes: it never stops for want of fuel.
pub decode_loop_total : (bytes : Bytes) → decode_loop (length bytes) bytes 0 ≢ none
decode_loop_total bytes = decode_loop_fuel (length bytes) bytes 0 (omega arith)

-- Whatever bytes are accepted, the value is a list of paths that is not empty and whose paths are
-- all absolute.
pub decode_paths_safe :
    (bytes : Bytes) (v : ClipboardValue)
    → decode_paths bytes ≡ ok v
    → (ps : List Text) × (v ≡ files ps) × (ps ≢ []) × (all_absolute ps ≡ true)
unfolding decode_paths
decode_paths_safe bytes v h = check_paths-files (decode_loop (length bytes) bytes 0) v h
