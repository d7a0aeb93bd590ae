-- ===== src/Sync/Codec/Ranges.antt =====
-- Slices of concatenated bytes, as crates/sync/src/lib.rs takes them.
use mathlib.Core.List.{append-nil}
use superspace.Base.{
  ℕ, ◌+◌, ◌-◌, ◌≡◌, sym, ap, ◌∙◌, some, [], ◌++◌, arith, length, length-append, take-length_append,
  drop-length_append,
}
use superspace.Base.Bytes.{Bytes}
use superspace.Sync.Codec.{get_range}

-- The middle of three parts, by its offsets.
pub get_range-append :
    (front middle back : Bytes) (from to : ℕ)
    → from ≡ length front
    → to ≡ from + length middle
    → get_range (front ++ (middle ++ back)) from to ≡ some middle
unfolding get_range
get_range-append front middle back from to h k =
    let span : to - from ≡ length middle = omega arith in
    rw (h, drop-length_append front (middle ++ back), ← h, span, take-length_append middle back)
      (ground (arith, length-append front (middle ++ back), length-append middle back))

-- The last of two parts.
pub get_range-append_last :
    (front back : Bytes) (from to : ℕ)
    → from ≡ length front
    → to ≡ length (front ++ back)
    → get_range (front ++ back) from to ≡ some back
get_range-append_last front back from to h k =
    ap (λ b. get_range (front ++ b) from to) (sym (append-nil back))
    ∙ get_range-append front back [] from to h (omega (arith, length-append front back))
