-- ===== src/Storage/Blob/Examples.antt =====
-- The blob store of crates/storage/src/blob.rs on examples. The digest is the content after a letter.
use superspace.Base.{ℕ, ◌≡◌, refl, ap, true, false, none, some, List, [], ◌∷◌, arith}
use superspace.Base.Bytes.{Bytes}
use superspace.Base.Result.{ok, err}
use superspace.Base.Text.{Text, as_bytes}
use superspace.Storage.Blob.{
  BlobHash, parse, BlobStore, with_file, Io, failed, invalid_data, temporary, put, read,
}
use superspace.Storage.Blob.Addressing.{IsAddressed, read-put}

abbrev digest : Bytes → BlobHash
digest bytes = b'h' ∷ bytes

abbrev rest : List ℕ → List ℕ
rest [] = []
rest (c ∷ cs) = cs

abbrev pid : Text
pid = b'7' ∷ []

abbrev hi : Bytes
hi = b'h' ∷ b'i' ∷ []

abbrev calm : Io
calm = record {
  create_new = true;
  write_all = none;
  sync_all = true;
  rename = true;
  remove_file = true;
}

abbrev full_disk : Io
full_disk = record {
  create_new = true;
  write_all = some 1;
  sync_all = true;
  rename = true;
  remove_file = false;
}

abbrev empty : BlobStore
empty name = none

abbrev after_put : BlobStore
after_put = with_file (digest hi) (some hi) (
    with_file (temporary pid (digest hi)) none
      (with_file (temporary pid (digest hi)) (some hi) empty))

-- A write that fails returns the error, with a part of the content in the temporary file where the
-- file could not be removed, and then the same process fails at the creation.
put_full_disk : (put digest full_disk pid hi empty).1 ≡ err failed
unfolding put
put_full_disk = refl

put_again : (put digest calm pid hi (put digest full_disk pid hi empty).0).1 ≡ err failed
unfolding put
put_again = refl

read_put_calm : read digest (put digest calm pid hi empty).0 (digest hi) ≡ ok hi
unfolding read put
read_put_calm = refl

read_damaged : read digest (with_file (digest hi) (some []) empty) (digest hi) ≡ err invalid_data
unfolding read
read_damaged = refl

parse_short : parse hi ≡ none
unfolding parse as_bytes
parse_short = refl

put_calm : put digest calm pid hi empty ≡ (after_put, ok (digest hi))
unfolding put
put_calm = refl

read-put_example :
    (digest hi ≡ digest hi)
    × (read digest after_put (digest hi) ≡ ok hi)
    × IsAddressed digest after_put
read-put_example =
    read-put digest calm pid hi empty after_put (digest hi) (λ name p. tt) (λ e. ground (arith, e))
      (λ b e. ap rest e) put_calm
