-- ===== src/Storage/Blob.antt =====
-- crates/storage/src/blob.rs: the content-addressed blob store. The files under its root are a map from
-- names to contents; what the operating system answers is an argument. The hexadecimal BLAKE3 digest
-- (`to_hex`) is a parameter. No other process writes there during a call.
pub mod Addressing
mod Examples
use superspace.Base.{
  ℕ, ◌+◌, Bool, true, false, not, ◌&&◌, ◌||◌, Option, none, some, List, [], ◌∷◌, ◌++◌, map, leb,
  ◌==◌, if◌then◌else◌, length, take,
}
use superspace.Base.Bytes.{Bytes}
use superspace.Base.Result.{Result, ok, err}
use superspace.Base.Text.{Text, as_bytes, text_eq}

-- `BlobHash`, by its text.
abbrev pub BlobHash : Type 0
BlobHash = Text

abbrev is_ascii_hexdigit : ℕ → Bool
is_ascii_hexdigit c =
    (leb b'0' c && leb c b'9') || (leb b'a' c && leb c b'f') || (leb b'A' c && leb c b'F')

abbrev to_ascii_lowercase : ℕ → ℕ
to_ascii_lowercase c = if leb b'A' c && leb c b'Z' then c + 32 else c

abbrev all_hexdigits : Bytes → Bool
all_hexdigits [] = true
all_hexdigits (c ∷ cs) = is_ascii_hexdigit c && all_hexdigits cs

-- `BlobHash::parse`
unfoldable pub parse : Text → Option BlobHash
parse value =
    if (length (as_bytes value) == 64) && all_hexdigits (as_bytes value)
    then some (map to_ascii_lowercase value)
    else none

-- The names under the root, with their contents.
abbrev pub BlobStore : Type 0
BlobStore = Text → Option Bytes

abbrev pub with_file : Text → Option Bytes → BlobStore → BlobStore
with_file name content store other = if text_eq other name then content else store other

-- What the operating system answers to the calls of `put`: whether a call succeeds, and how many bytes
-- a failing write has written.
pub record Io : Type 0 where
  pub create_new : Bool
  pub write_all : Option ℕ
  pub sync_all : Bool
  pub rename : Bool
  pub remove_file : Bool

-- `std::io::Error`, by what matters here.
pub data StoreError : Type 0 where
  failed not_found invalid_data : StoreError

-- `.{hash}.{pid}.partial`
temporary : Text → BlobHash → Text
temporary pid hash =
    b'.' ∷ (hash ++ (b'.' ∷ (pid ++ (b'.' ∷ b'p' ∷ b'a' ∷ b'r' ∷ b't' ∷ b'i' ∷ b'a' ∷ b'l' ∷ []))))

is_file : Option Bytes → Bool
is_file none = false
is_file (some bytes) = true

-- `let _ = fs::remove_file(&temporary)`, then the error.
give_up : Io → Text → BlobStore → BlobStore × Result StoreError BlobHash
give_up env name store = (if env.remove_file then with_file name none store else store, err failed)

-- The rename; where it fails and the content is there all the same, the temporary file goes.
move : Io → Text → BlobHash → Bytes → BlobStore → BlobStore × Result StoreError BlobHash
unfolding give_up is_file
move env name hash bytes store =
    if env.rename
    then (with_file hash (some bytes) (with_file name none store), ok hash)
    else if is_file (store hash) && env.remove_file
    then (with_file name none store, ok hash)
    else give_up env name store

-- The write and the synchronisation of the temporary file, which is open.
fill : Io → Option ℕ → Text → BlobHash → Bytes → BlobStore → BlobStore × Result StoreError BlobHash
unfolding give_up move
fill env (some n) name hash bytes store =
    give_up env name (with_file name (some (take n bytes)) store)
fill env none name hash bytes store =
    let store' = with_file name (some bytes) store in
    if env.sync_all then move env name hash bytes store' else give_up env name store'

-- The part of `put` for content that is not there.
create : Io → Text → BlobHash → Bytes → BlobStore → BlobStore × Result StoreError BlobHash
unfolding fill is_file
create env name hash bytes store =
    if is_file (store name) || not env.create_new
    then (store, err failed)
    else fill env env.write_all name hash bytes store

module _ (digest : Bytes → BlobHash) where
  unfoldable pub put : Io → Text → Bytes → BlobStore → BlobStore × Result StoreError BlobHash
  unfolding create is_file temporary
  put env pid bytes store =
      if is_file (store (digest bytes))
      then (store, ok (digest bytes))
      else create env (temporary pid (digest bytes)) (digest bytes) bytes store

  read_content : Option Bytes → BlobHash → Result StoreError Bytes
  read_content none hash = err not_found
  read_content (some bytes) hash =
      if text_eq (digest bytes) hash then ok bytes else err invalid_data

  unfoldable pub read : BlobStore → BlobHash → Result StoreError Bytes
  unfolding read_content
  read store hash = read_content (store hash) hash
