-- ===== src/Extensions/Registry.antt =====
-- crates/extensions/src/registry.rs: the records of the extension registry, their signatures and the
-- verification of a package against its record. Ed25519 and semantic versions are parameters.
pub mod Hex
pub mod Verified
pub mod Nonzero
pub mod Payload
pub mod Publish
pub mod Catalog
mod Examples
use superspace.Base.{
  ℕ, zero, suc, ◌+◌, ◌-◌, ◌*◌, ◌/◌, ◌%◌, Bool, true, false, not, ◌&&◌, ◌||◌, Option, none, some,
  List, [], ◌∷◌, ◌++◌, length, ltb, leb, ◌==◌, if◌then◌else◌, map,
}
use superspace.Base.Bytes.{Bytes}
use superspace.Base.Result.{Result, ok, err, ◌>>=◌, ◌>>◌, guard, ok_or, map_err}
use superspace.Base.Text.{Text, as_bytes, text_eq}
use superspace.Extensions.Manifest.{ExtensionManifest}
use superspace.Extensions.Package.{PackageError, ExtensionPackage, Formats, read_from}

pub data RegistryError : Type 0 where
  invalid_key invalid_signature invalid_record hash_mismatch version_conflict : RegistryError
  too_large not_found io json install : RegistryError
  package_error : PackageError → RegistryError

pub record RegistryRecord (Version : Type 0) : Type 0 where
  pub schema : ℕ
  pub id : Text
  pub version : Version
  pub package_path : Text
  pub package_hash : Text
  pub publisher_key : Text
  pub signature : Text

abbrev pub current_schema : ℕ
current_schema = 1

abbrev pub max_package_bytes : ℕ
max_package_bytes = 66 * 1024 * 1024

abbrev hex_char : ℕ → ℕ
hex_char digit = if ltb digit 10 then b'0' + digit else b'a' + (digit - 10)

unfoldable pub encode_hex : Bytes → Text
encode_hex [] = []
encode_hex (byte ∷ bytes) = hex_char (byte / 16) ∷ hex_char (byte % 16) ∷ encode_hex bytes

abbrev pub hex_digit : ℕ → Option ℕ
hex_digit byte =
    if leb b'0' byte && leb byte b'9'
    then some (byte - b'0')
    else if leb b'a' byte && leb byte b'f'
    then some (byte - b'a' + 10)
    else if leb b'A' byte && leb byte b'F'
    then some (byte - b'A' + 10)
    else none

-- The pairs of bytes; the first element of a pair is shifted by four bits.
unfoldable pub decode_pairs : Bytes → Result RegistryError Bytes
decode_pairs [] = ok []
decode_pairs (a ∷ []) = ok []
decode_pairs (a ∷ b ∷ rest) =
    let tail = decode_pairs rest in
    (do
      high ← ok_or (hex_digit a) invalid_key
      low ← ok_or (hex_digit b) invalid_key
      bytes ← tail
      ok ((high * 16 + low) ∷ bytes))

unfoldable pub decode_hex : Text → Result RegistryError Bytes
unfolding decode_pairs
decode_hex value = do
  guard (length (as_bytes value) % 2 == 0) invalid_key
  decode_pairs (as_bytes value)

unfoldable pub decode_fixed : ℕ → Text → Result RegistryError Bytes
unfolding decode_hex
decode_fixed n value = do bytes ← decode_hex value; guard (length bytes == n) invalid_key; ok bytes

-- `u16::to_string`
abbrev digits : ℕ → ℕ → Text → Text
digits zero n s = s
digits (suc fuel) n s =
    let more = digits fuel (n / 10) ((b'0' + n % 10) ∷ s) in
    if ltb n 10 then (b'0' + n) ∷ s else more

unfoldable pub to_string : ℕ → Text
to_string n = digits 5 n []

-- `join(&0)`
unfoldable pub join_zero : List Bytes → Bytes
join_zero [] = []
join_zero (p ∷ []) = p
join_zero (p ∷ q ∷ ps) = p ++ (0 ∷ join_zero (q ∷ ps))

-- What the registry takes from `semver` and `ed25519_dalek`.
pub record Libraries (Version : Type 0) : Type 1 where
  pub version_to_string : Version → Text
  pub version_eq : Version → Version → Bool
  pub VerifyingKey : Type 0
  pub key_from_bytes : Bytes → Option VerifyingKey
  pub verify : VerifyingKey → Bytes → Bytes → Bool
  pub SigningKey : Type 0
  pub public_bytes : SigningKey → Bytes
  pub sign : SigningKey → Bytes → Bytes

abbrev pub packages_dir : Text
packages_dir = b'p' ∷ b'a' ∷ b'c' ∷ b'k' ∷ b'a' ∷ b'g' ∷ b'e' ∷ b's' ∷ b'/' ∷ []

abbrev pub package_suffix : Text
package_suffix =
    b'.' ∷ b's' ∷ b'u' ∷ b'p' ∷ b'e' ∷ b'r' ∷ b's' ∷ b'p' ∷ b'a' ∷ b'c' ∷ b'e' ∷ b'-' ∷ b'e' ∷ b'x'
    ∷ b't' ∷ b'e' ∷ b'n' ∷ b's' ∷ b'i' ∷ b'o' ∷ b'n' ∷ []

module _ {Version : Type 0} (formats : Formats Version) (libraries : Libraries Version) where
  open libraries use {version_to_string, version_eq, VerifyingKey, key_from_bytes, verify}

  unfoldable pub expected_path : Text → Version → Text
  expected_path id version =
      packages_dir ++ (id ++ (b'/' ∷ (version_to_string version ++ package_suffix)))

  -- The fields of a record that its signature covers.
  abbrev pub signed_parts : RegistryRecord Version → List Bytes
  signed_parts r =
      as_bytes (to_string r.schema)
      ∷ as_bytes r.id
      ∷ as_bytes (version_to_string r.version)
      ∷ as_bytes r.package_path
      ∷ as_bytes r.package_hash
      ∷ as_bytes r.publisher_key
      ∷ []

  unfoldable pub signing_payload : RegistryRecord Version → Bytes
  signing_payload r = join_zero (signed_parts r)

  unfoldable pub verify_registry_package :
      RegistryRecord Version → Bytes → Result RegistryError (ExtensionPackage Version)
  unfolding expected_path decode_fixed signing_payload
  verify_registry_package r package_bytes = do
    guard (r.schema == current_schema && leb (length package_bytes) max_package_bytes)
        invalid_record
    guard (text_eq r.package_path (expected_path r.id r.version)) invalid_record
    key_bytes ← map_err (λ e. invalid_key) (decode_fixed 32 r.publisher_key)
    key ← ok_or (key_from_bytes key_bytes) invalid_key
    signature ← map_err (λ e. invalid_signature) (decode_fixed 64 r.signature)
    guard (verify key (signing_payload r) signature) invalid_signature
    guard (text_eq (encode_hex (formats.hash package_bytes)) r.package_hash) hash_mismatch
    p ← map_err package_error (read_from formats package_bytes)
    guard (text_eq p.manifest.id r.id && version_eq p.manifest.version r.version) invalid_record
    ok p
