-- ===== src/Extensions/Package.antt =====
-- crates/extensions/src/package.rs: the envelope of an extension package and its validation, read from and
-- written to bytes in memory. JSON, BLAKE3 and the validator of WebAssembly are parameters.
pub mod Identifier
pub mod Envelope
pub mod Accepted
mod Examples
use superspace.Base.{
  ℕ, ◌+◌, ◌-◌, ◌*◌, ◌^◌, Bool, true, false, not, ◌&&◌, ◌||◌, Option, none, some, List, [], ◌∷◌,
  ◌++◌, length, take, drop, ltb, leb, ◌==◌, if◌then◌else◌,
}
use superspace.Base.Bytes.{Bytes, to_le_bytes, from_le_bytes}
use superspace.Base.Result.{Result, ok, err, ◌>>=◌, ◌>>◌, guard, ok_or}
use superspace.Base.Text.{Text, as_bytes, text_eq, trim, is_empty, starts_with}
use superspace.Extensions.Manifest.{Command, ExtensionManifest}
use superspace.Extensions.Policy.{
  Capability, clipboard_read, clipboard_write, filesystem, network, process, capability_eq, names,
  any,
}

pub data PackageError : Type 0 where
  bad_magic unsupported_version too_large truncated trailing_data hash_mismatch : PackageError
  manifest invalid_component json io : PackageError

pub record ExtensionPackage (Version : Type 0) : Type 0 where
  pub manifest : ExtensionManifest Version
  pub module_hash : Bytes
  pub module_bytes : Bytes

abbrev pub magic : Bytes
magic = b'S' ∷ b'U' ∷ b'P' ∷ b'E' ∷ b'R' ∷ b'E' ∷ b'X' ∷ b'T' ∷ []

abbrev pub format_version : ℕ
format_version = 1

abbrev pub max_manifest_bytes : ℕ
max_manifest_bytes = 1024 * 1024

abbrev pub max_module_bytes : ℕ
max_module_bytes = 64 * 1024 * 1024

abbrev pub is_identifier_byte : ℕ → Bool
is_identifier_byte c =
    (leb b'0' c && leb c b'9')
    || (leb b'a' c && leb c b'z')
    || (leb b'A' c && leb c b'Z')
    || (c == b'.')
    || (c == b'-')
    || (c == b'_')

unfoldable pub all_bytes : (ℕ → Bool) → Bytes → Bool
all_bytes test [] = true
all_bytes test (b ∷ bs) = test b && all_bytes test bs

unfoldable pub valid_identifier : Text → Bool
unfolding all_bytes
valid_identifier value =
    not (is_empty value)
    && leb (length (as_bytes value)) 128
    && all_bytes is_identifier_byte (as_bytes value)

-- `str::contains` of one of some characters.
contains_any : (ℕ → Bool) → Text → Bool
contains_any test [] = false
contains_any test (c ∷ s) = test c || contains_any test s

abbrev https : Text
https = b'h' ∷ b't' ∷ b't' ∷ b'p' ∷ b's' ∷ b':' ∷ b'/' ∷ b'/' ∷ []

abbrev ends_host : ℕ → Bool
ends_host c = (c == b'/') || (c == b'?') || (c == b'#') || (c == b'*')

valid_origin : Text → Bool
unfolding contains_any
valid_origin origin =
    starts_with origin https
    && leb (length (as_bytes origin)) 2048
    && not (is_empty (drop 8 origin))
    && not (contains_any ends_host (drop 8 origin))

valid_executable : Text → Bool
unfolding contains_any
valid_executable executable =
    not (is_empty (trim executable)) && not (contains_any (λ c. c == 0) executable)

all_texts : (Text → Bool) → List Text → Bool
all_texts test [] = true
all_texts test (t ∷ ts) = test t && all_texts test ts

pub valid_capability : Capability → Bool
unfolding all_texts valid_origin valid_executable contains_any
valid_capability clipboard_read = true
valid_capability clipboard_write = true
valid_capability (filesystem grant) =
    not (is_empty (trim grant.path))
    && leb (length (as_bytes grant.path)) 4096
    && not (contains_any (λ c. c == 0) grant.path)
valid_capability (network grant) =
    not (is_empty grant.origins)
    && leb (length grant.origins) 128
    && all_texts valid_origin grant.origins
valid_capability (process executables) =
    not (is_empty executables)
    && leb (length executables) 128
    && all_texts valid_executable executables

-- The loops, with what the `HashSet` holds.
valid_commands : List Text → List Command → Bool
unfolding valid_identifier
valid_commands ids [] = true
valid_commands ids (command ∷ commands) =
    valid_identifier command.id
    && not (is_empty (trim command.title))
    && not (names ids command.id)
    && valid_commands (command.id ∷ ids) commands

valid_capabilities : List Capability → List Capability → Bool
unfolding valid_capability
valid_capabilities seen [] = true
valid_capabilities seen (capability ∷ capabilities) =
    not (any (λ c. capability_eq c capability) seen)
    && valid_capability capability
    && valid_capabilities (capability ∷ seen) capabilities

abbrev pub interface_id : Text
interface_id =
    b's' ∷ b'u' ∷ b'p' ∷ b'e' ∷ b'r' ∷ b's' ∷ b'p' ∷ b'a' ∷ b'c' ∷ b'e' ∷ b':' ∷ b'e' ∷ b'x' ∷ b't'
    ∷ b'e' ∷ b'n' ∷ b's' ∷ b'i' ∷ b'o' ∷ b'n' ∷ b'@' ∷ b'1' ∷ []

-- What the package takes from libraries: the JSON of a manifest, BLAKE3, and whether some bytes are valid
-- WebAssembly and, if they are, a component.
pub record Formats (Version : Type 0) : Type 0 where
  pub to_vec : ExtensionManifest Version → Option Bytes
  pub from_slice : Bytes → Option (ExtensionManifest Version)
  pub hash : Bytes → Bytes
  pub validate_all : Bytes → Bool
  pub is_component : Bytes → Bool

unfoldable pub validate_manifest :
    {Version : Type 0} → ExtensionManifest Version → Result PackageError (Unit {0})
unfolding valid_commands valid_capabilities
validate_manifest m = do
  guard (text_eq m.interface interface_id) manifest
  guard (valid_identifier m.id && not (is_empty (trim m.name))) manifest
  guard (not (is_empty m.commands)) manifest
  guard (valid_commands [] m.commands) manifest
  guard (valid_capabilities [] m.capabilities) manifest

-- `usize_to_u32`
unfoldable pub usize_to_u32 : ℕ → Result PackageError ℕ
usize_to_u32 n = if ltb n (2 ^ 32) then ok n else err too_large

module _ {Version : Type 0} (formats : Formats Version) where
  open formats use {to_vec, from_slice, hash, validate_all, is_component}

  pub validate_component : Bytes → Result PackageError (Unit {0})
  validate_component bytes = do
    guard (leb (length bytes) max_module_bytes) too_large
    guard (validate_all bytes) invalid_component
    guard (is_component bytes) manifest

  unfoldable pub new :
      ExtensionManifest Version → Bytes → Result PackageError (ExtensionPackage Version)
  unfolding validate_component validate_manifest
  new m bytes = do
    validate_manifest m
    validate_component bytes
    ok (record { manifest = m; module_hash = hash bytes; module_bytes = bytes })

  abbrev pub header_of : ℕ → ℕ → Bytes → Bytes
  header_of manifest_len module_len digest =
      magic
      ++ (to_le_bytes 2 format_version
          ++ (to_le_bytes 4 manifest_len ++ (to_le_bytes 4 module_len ++ digest)))

  -- The bytes that `write_to` writes.
  unfoldable pub envelope : Bytes → Bytes → Bytes → Bytes
  envelope manifest_bytes bytes digest =
      header_of (length manifest_bytes) (length bytes) digest ++ (manifest_bytes ++ bytes)

  unfoldable pub write_to : ExtensionPackage Version → Result PackageError Bytes
  unfolding envelope usize_to_u32
  write_to self = do
    manifest_bytes ← ok_or (to_vec self.manifest) json
    manifest_len ← usize_to_u32 (length manifest_bytes)
    module_len ← usize_to_u32 (length self.module_bytes)
    ok (envelope manifest_bytes self.module_bytes self.module_hash)

  -- `read_exact` of some bytes from a slice, with what is left of it.
  unfoldable pub read_exact : ℕ → Bytes → Result PackageError (Bytes × Bytes)
  read_exact n input = if leb n (length input) then ok (take n input, drop n input) else err io

  -- The bytes from one place of the header to another.
  unfoldable pub field_at : ℕ → ℕ → Bytes → Bytes
  field_at from to header = take (to - from) (drop from header)

  -- `read_from` behind the header, with the two announced lengths and the expected hash.
  unfoldable pub read_body : ℕ → ℕ → Bytes → Bytes → Result PackageError (ExtensionPackage Version)
  unfolding read_exact new
  read_body manifest_len module_len expected_hash input = do
    (manifest_bytes, after) ← read_exact manifest_len input
    (bytes, trailing) ← read_exact module_len after
    guard (is_empty trailing) trailing_data
    guard (text_eq (hash bytes) expected_hash) hash_mismatch
    m ← ok_or (from_slice manifest_bytes) json
    new m bytes

  unfoldable pub read_from : Bytes → Result PackageError (ExtensionPackage Version)
  unfolding read_exact field_at read_body
  read_from input = do
    (header, rest) ← read_exact 50 input
    guard (text_eq (field_at 0 8 header) magic) bad_magic
    guard (from_le_bytes (field_at 8 10 header) == format_version) unsupported_version
    let manifest_len = from_le_bytes (field_at 10 14 header)
    let module_len = from_le_bytes (field_at 14 18 header)
    guard (leb manifest_len max_manifest_bytes && leb module_len max_module_bytes) too_large
    read_body manifest_len module_len (field_at 18 50 header) rest
