-- ===== src/Extensions/Registry/Publish.antt =====
-- crates/extensions/src/registry.rs: publish_package and the files that it writes. A path is text, the regular
-- files are a map, and one that is there can be read; what the operating system answers is an argument.
-- A path that is written has a parent, since it was joined with a root.
pub mod Immutable
pub mod Published
use superspace.Base.{
  ℕ, ◌+◌, Bool, true, false, not, ◌||◌, ◌&&◌, Option, none, some, List, [], ◌∷◌, ◌++◌, length, take,
  leb, if◌then◌else◌,
}
use superspace.Base.Bytes.{Bytes}
use superspace.Base.Result.{Result, ok, err, ◌>>=◌, ◌>>◌, guard, ok_or, map_err}
use superspace.Base.Text.{Text, as_bytes, text_eq}
use superspace.Extensions.Package.{ExtensionPackage, Formats, read_from, write_to}
use superspace.Extensions.Registry.{
  RegistryError, version_conflict, too_large, io, json, package_error, RegistryRecord, Libraries,
  current_schema, max_package_bytes, encode_hex, expected_path, signing_payload,
}

abbrev pub Files : Type 0
Files = Text → Option Bytes

abbrev pub put : Text → Option Bytes → Files → Files
put path content files other = if text_eq other path then content else files other

-- What the operating system answers to the calls of one `write_immutable`: whether a call succeeds, and
-- how many bytes a failing write has written.
pub record Io : Type 0 where
  pub create_dir_all : Bool
  pub create_new : Bool
  pub write_all : Option ℕ
  pub sync_all : Bool
  pub rename : Bool
  pub remove_file : Bool

abbrev pub Call : Type 0
Call = Files × Result RegistryError (Unit {0})

-- `temporary_path`
unfoldable pub temporary_path : Text → Text → Text
temporary_path pid path = path ++ (b'.' ∷ (pid ++ (b'.' ∷ b't' ∷ b'm' ∷ b'p' ∷ [])))

unfoldable pub exists : Option Bytes → Bool
exists none = false
exists (some bytes) = true

-- `let _ = fs::remove_file(&temporary)`, then the error.
unfoldable pub give_up : Io → Text → Files → Call
give_up env temporary files = (if env.remove_file then put temporary none files else files, err io)

-- The write, the synchronisation and the rename of the temporary file, which is open.
unfoldable pub fill : Io → Option ℕ → Text → Text → Bytes → Files → Call
unfolding give_up
fill env (some n) temporary path bytes files =
    give_up env temporary (put temporary (some (take n bytes)) files)
fill env none temporary path bytes files =
    let files' = put temporary (some bytes) files in
    if env.sync_all && env.rename
    then (put path (some bytes) (put temporary none files'), ok tt)
    else give_up env temporary files'

-- The part of `write_immutable` for a path that is not there.
unfoldable pub create : Io → Text → Text → Bytes → Files → Call
unfolding fill exists
create env temporary path bytes files =
    if not env.create_dir_all || (exists (files temporary) || not env.create_new)
    then (files, err io)
    else fill env env.write_all temporary path bytes files

unfoldable pub compare_content : Bytes → Bytes → Result RegistryError (Unit {0})
compare_content found bytes = guard (text_eq found bytes) version_conflict

-- The two cases of `write_immutable`, by what is at the path.
unfoldable pub write_over : Option Bytes → Io → Text → Text → Bytes → Files → Call
unfolding create compare_content
write_over none env temporary path bytes files = create env temporary path bytes files
write_over (some found) env temporary path bytes files = (files, compare_content found bytes)

unfoldable pub write_immutable : Io → Text → Text → Bytes → Files → Call
unfolding write_over temporary_path
write_immutable env pid path bytes files =
    write_over (files path) env (temporary_path pid path) path bytes files

module _ {Version : Type 0} (formats : Formats Version) (libraries : Libraries Version)
    (to_vec_pretty : RegistryRecord Version → Option Bytes) where
  open libraries use {version_to_string, SigningKey, public_bytes, sign}

  -- The record without its signature.
  unfoldable pub unsigned : SigningKey → ExtensionPackage Version → Bytes → RegistryRecord Version
  unsigned identity p canonical = record {
    schema = current_schema;
    id = p.manifest.id;
    version = p.manifest.version;
    package_path = expected_path formats libraries p.manifest.id p.manifest.version;
    package_hash = encode_hex (formats.hash canonical);
    publisher_key = encode_hex (public_bytes identity);
    signature = [];
  }

  unfoldable pub signed : SigningKey → ExtensionPackage Version → Bytes → RegistryRecord Version
  unfolding unsigned
  signed identity p canonical =
      let r = unsigned identity p canonical in
      record r { signature = encode_hex (sign identity (signing_payload formats libraries r)) }

  -- The part of `publish_package` before it writes: the bytes of the package, its record and the bytes
  -- of that.
  unfoldable pub prepare :
      SigningKey → Bytes → Result RegistryError (Bytes × RegistryRecord Version)
  unfolding signed
  prepare identity bytes = do
    guard (leb (length bytes) max_package_bytes) too_large
    p ← map_err package_error (read_from formats bytes)
    canonical ← map_err package_error (write_to formats p)
    ok (canonical, signed identity p canonical)

  abbrev index_dir : Text
  index_dir = b'/' ∷ b'i' ∷ b'n' ∷ b'd' ∷ b'e' ∷ b'x' ∷ b'/' ∷ []

  abbrev json_suffix : Text
  json_suffix = b'.' ∷ b'j' ∷ b's' ∷ b'o' ∷ b'n' ∷ []

  -- `root.join(&record.package_path)`
  unfoldable pub package_file : Text → RegistryRecord Version → Text
  package_file root r = root ++ (b'/' ∷ r.package_path)

  unfoldable pub record_file : Text → RegistryRecord Version → Text
  record_file root r =
      root ++ (index_dir ++ (r.id ++ (b'/' ∷ (version_to_string r.version ++ json_suffix))))

  abbrev pub finish :
      RegistryRecord Version → Call → Files × Result RegistryError (RegistryRecord Version)
  finish r (files, ok t) = (files, ok r)
  finish r (files, err e) = (files, err e)

  -- The record, in JSON with a newline.
  unfoldable pub write_encoded :
      Option Bytes
      → Io
      → Text
      → Text
      → RegistryRecord Version
      → Files
      → Files × Result RegistryError (RegistryRecord Version)
  unfolding record_file write_immutable
  write_encoded none env pid root r files = (files, err json)
  write_encoded (some bytes) env pid root r files =
      finish r (write_immutable env pid (record_file root r) (bytes ++ (b'\n' ∷ [])) files)

  -- The record is written after the package.
  unfoldable pub write_record :
      Io
      → Text
      → Text
      → RegistryRecord Version
      → Call
      → Files × Result RegistryError (RegistryRecord Version)
  unfolding write_encoded
  write_record env pid root r (files, err e) = (files, err e)
  write_record env pid root r (files, ok t) = write_encoded (to_vec_pretty r) env pid root r files

  unfoldable pub write_prepared :
      Result RegistryError (Bytes × RegistryRecord Version)
      → Io
      → Io
      → Text
      → Text
      → Files
      → Files × Result RegistryError (RegistryRecord Version)
  unfolding package_file write_record write_immutable
  write_prepared (err e) env env' pid root files = (files, err e)
  write_prepared (ok (canonical, r)) env env' pid root files =
      write_record env' pid root r (write_immutable env pid (package_file root r) canonical files)

  -- `publish_package`, of a package whose bytes were read; one environment for each of the two files.
  unfoldable pub publish_package :
      Io
      → Io
      → Text
      → Text
      → SigningKey
      → Bytes
      → Files
      → Files × Result RegistryError (RegistryRecord Version)
  unfolding prepare write_prepared
  publish_package env env' pid root identity bytes files =
      write_prepared (prepare identity bytes) env env' pid root files
