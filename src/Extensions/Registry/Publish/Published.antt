-- ===== src/Extensions/Registry/Publish/Published.antt =====
-- What is published is verified (crates/extensions/src/registry.rs).
use superspace.Base.{◌≤◌, ◌≡◌, true, some, Option, [], ◌∷◌, ◌++◌, length, All}
use superspace.Base.Bytes.{Bytes, IsByte}
use superspace.Base.Result.{Result, ok}
use superspace.Base.Text.{Text}
use superspace.Extensions.Package.{
  ExtensionPackage, Formats, read_from, write_to, max_manifest_bytes,
}
use superspace.Extensions.Registry.{
  RegistryError, RegistryRecord, Libraries, verify_registry_package,
}
use superspace.Extensions.Registry.Publish.{Files, signed, package_file, record_file}
use superspace.Extensions.Registry.Publish.Immutable.{Keeps}

module _ {Version : Type 0} (formats : Formats Version) (libraries : Libraries Version)
    (to_vec_pretty : RegistryRecord Version → Option Bytes) where
  open formats use {to_vec, from_slice, hash}
  open libraries use {version_eq, key_from_bytes, verify, SigningKey, public_bytes, sign}

  -- The public key of a signer verifies what it signed.
  pub record Signs (k : SigningKey) (xs : Bytes) : Type 0 where
    pub key : libraries.VerifyingKey
    pub parsed : key_from_bytes (public_bytes k) ≡ some key
    pub verified : verify key xs (sign k xs) ≡ true

  -- What the libraries document: a digest is 32 bytes, a signature 64
  -- that the key of its signer verifies, and a version is equal to itself.
  pub record IsLawful : Type 0 where
    pub digest_bytes : (xs : Bytes) → All IsByte (hash xs)
    pub digest_length : (xs : Bytes) → length (hash xs) ≡ 32
    pub key_is_bytes : (k : SigningKey) → All IsByte (public_bytes k)
    pub key_length : (k : SigningKey) → length (public_bytes k) ≡ 32
    pub sign_bytes : (k : SigningKey) (xs : Bytes) → All IsByte (sign k xs)
    pub sign_length : (k : SigningKey) (xs : Bytes) → length (sign k xs) ≡ 64
    pub signs : (k : SigningKey) (xs : Bytes) → Signs k xs
    pub version_refl : (v : Version) → version_eq v v ≡ true

  -- What `prepare` read and made.
  record Prepared (identity : SigningKey) (bytes canonical : Bytes) (r : RegistryRecord Version)
      : Type 0 where
    contents : ExtensionPackage Version
    read : read_from formats bytes ≡ ok contents
    written : write_to formats contents ≡ ok canonical
    made : r ≡ signed formats libraries to_vec_pretty identity contents canonical

  -- What JSON writes for the manifest of a package that is read is read back, and is short enough.
  abbrev pub IsRewritable : Bytes → Type 0
  IsRewritable bytes =
      (p : ExtensionPackage Version) (manifest_bytes : Bytes)
      → read_from formats bytes ≡ ok p
      → to_vec p.manifest ≡ some manifest_bytes
      → (from_slice manifest_bytes ≡ some p.manifest) × (length manifest_bytes ≤ max_manifest_bytes)

  -- The registry as a publication leaves it.
  pub record Published (root : Text) (r : RegistryRecord Version) (files : Files) : Type 0 where
    pub contents : ExtensionPackage Version
    pub stored : Bytes
    pub at_path : files (package_file formats libraries to_vec_pretty root r) ≡ some stored
    pub verified : verify_registry_package formats libraries r stored ≡ ok contents
    pub record_bytes : Bytes
    pub encoded : to_vec_pretty r ≡ some record_bytes
    pub indexed :
        files (record_file formats libraries to_vec_pretty root r)
        ≡ some (record_bytes ++ (b'\n' ∷ []))

  -- What a successful write of the record consists of.
  record Written (root : Text) (r r' : RegistryRecord Version) (encoded : Option Bytes)
      (before files' : Files) : Type 0 where
    record_bytes : Bytes
    same : r ≡ r'
    is_encoded : encoded ≡ some record_bytes
    indexed :
        files' (record_file formats libraries to_vec_pretty root r)
        ≡ some (record_bytes ++ (b'\n' ∷ []))
    keeps : Keeps before files'

  -- What a publication that succeeds went through, from the package to its record.
  record Succeeded (root : Text) (canonical : Bytes) (r r' : RegistryRecord Version)
      (call : Files × Result RegistryError (Unit {0})) (files' : Files) : Type 0 where
    before : Files
    first : call ≡ (before, ok tt)
    last : Written root r r' (to_vec_pretty r) before files'
