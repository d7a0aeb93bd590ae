-- ===== src/Extensions/Registry/Examples.antt =====
-- The registry of crates/extensions/src/registry.rs on examples: one version, a constant digest, and a signature
-- that is a constant too.
use superspace.Base.{
  ◌≡◌, ◌≢◌, refl, Bool, true, false, not, Option, none, some, List, [], ◌∷◌, ◌++◌, arith, retain,
  take, if◌then◌else◌, ◌↔◌, inl, inr, Bool-cases, ◌∙◌, sym,
}
use superspace.Base.Bytes.{Bytes, are_bytes-All}
use superspace.Base.Result.{ok}
use superspace.Base.Text.{Text, text_eq, are_bytes-IsScalar}
use Prim.Native.Nat.{Ordering}
use superspace.Extensions.Manifest.{ExtensionManifest}
use superspace.Extensions.Package.{ExtensionPackage, Formats, interface_id, envelope, read_from}
use superspace.Extensions.Registry.{
  Libraries, RegistryRecord, expected_path, signing_payload, verify_registry_package, encode_hex,
}
use superspace.Extensions.Registry.Verified.{IsVerified, verify_registry_package_iff}
use superspace.Extensions.Registry.Payload.{signing_payload_injective}
use superspace.Extensions.Registry.Publish.{Io, Files, signed, publish_package}
use superspace.Extensions.Registry.Publish.Immutable.{Keeps, publish_package-Keeps}
use superspace.Extensions.Registry.Publish.Published.{Published}
use superspace.Extensions.Registry.Catalog.{IdEntry, load_registry, latest}
use superspace.Extensions.Registry.Catalog.Loaded.{IsBacked}
use superspace.Extensions.Registry.Catalog.Latest.{IsGreatest, load_registry-latest}

abbrev hello : Text
hello = b'h' ∷ b'i' ∷ []

abbrev demo : ExtensionManifest (Unit {0})
demo = record {
  id = hello;
  name = hello;
  version = tt;
  interface = interface_id;
  commands = record { id = hello; title = hello; keywords = [] } ∷ [];
  capabilities = [];
}

abbrev component : Bytes
component = 0 ∷ b'a' ∷ b's' ∷ b'm' ∷ []

abbrev eight : Bytes
eight = 1 ∷ 2 ∷ 3 ∷ 4 ∷ 5 ∷ 6 ∷ 7 ∷ 8 ∷ []

abbrev digest : Bytes
digest = eight ++ (eight ++ (eight ++ eight))

abbrev json_text : Bytes
json_text = b'{' ∷ b'}' ∷ []

abbrev formats : Formats (Unit {0})
formats = record {
  to_vec = λ m. some json_text;
  from_slice = λ bytes. some demo;
  hash = λ bytes. digest;
  validate_all = λ bytes. true;
  is_component = λ bytes. true;
}

abbrev libraries : Libraries (Unit {0})
libraries = record {
  version_to_string = λ v. b'1' ∷ [];
  version_eq = λ v w. true;
  VerifyingKey = Unit;
  key_from_bytes = λ bytes. some tt;
  verify = λ key payload signature. text_eq (take 4 signature) (take 4 digest);
  SigningKey = Unit;
  public_bytes = λ key. digest;
  sign = λ key payload. digest ++ digest;
}

abbrev to_vec_pretty : RegistryRecord (Unit {0}) → Option Bytes
to_vec_pretty r = some json_text

abbrev packed : ExtensionPackage (Unit {0})
packed = record { manifest = demo; module_hash = digest; module_bytes = component }

abbrev bytes : Bytes
bytes = envelope formats json_text component digest

abbrev entry : RegistryRecord (Unit {0})
entry = signed formats libraries to_vec_pretty tt packed bytes

abbrev working : Io
working = record {
  create_dir_all = true;
  create_new = true;
  write_all = none;
  sync_all = true;
  rename = true;
  remove_file = true;
}

abbrev root : Text
root = b'/' ∷ b'r' ∷ []

abbrev no_files : Files
no_files path = none

verified : verify_registry_package formats libraries entry bytes ≡ ok packed
unfolding verify_registry_package read_from signed envelope superspace.Base.Text.as_bytes encode_hex
    superspace.Base.Text.trim superspace.Extensions.Policy.names
verified = refl

verify_registry_package_iff_example :
    (verify_registry_package formats libraries entry bytes ≡ ok packed)
    ↔ IsVerified formats libraries entry bytes packed
verify_registry_package_iff_example =
    verify_registry_package_iff formats libraries entry bytes packed

-- The same record with another signature that the key verifies.
abbrev resigned : RegistryRecord (Unit {0})
resigned = record entry {
  signature = encode_hex (digest ++ (eight ++ (eight ++ (eight ++ (0 ∷ take 7 eight)))));
}

resigned_verified : verify_registry_package formats libraries resigned bytes ≡ ok packed
unfolding verify_registry_package read_from signed envelope superspace.Base.Text.as_bytes encode_hex
    superspace.Base.Text.trim superspace.Extensions.Policy.names
resigned_verified = refl

signing_payload_injective_example : record entry { signature = resigned.signature } ≡ resigned
unfolding envelope signed expected_path encode_hex signing_payload superspace.Base.Text.as_bytes
signing_payload_injective_example =
    signing_payload_injective formats libraries entry resigned bytes bytes packed packed
      (λ v. (omega arith, tt)) (λ v w e. refl) (λ xs. are_bytes-All digest refl)
      (are_bytes-All bytes refl) (are_bytes-All bytes refl)
      (record {
        id_scalars = are_bytes-IsScalar entry.id refl;
        key_scalars = are_bytes-IsScalar entry.publisher_key refl;
      })
      (record {
        id_scalars = are_bytes-IsScalar resigned.id refl;
        key_scalars = are_bytes-IsScalar resigned.publisher_key refl;
      })
      verified resigned_verified refl

published : Files
published =
    (publish_package formats libraries to_vec_pretty working working hello root tt bytes no_files).0

publish_package-Keeps_example : Keeps no_files published
unfolding published
publish_package-Keeps_example =
    publish_package-Keeps formats libraries to_vec_pretty working working hello root tt bytes
      no_files

abbrev index_file : Text
index_file = b'x' ∷ []

abbrev stored : Files
stored path = if text_eq path index_file then some json_text else some bytes

abbrev parse_record : Bytes → Option (RegistryRecord (Unit {0}))
parse_record text = some entry

abbrev same_version : Unit {0} → Unit {0} → Ordering
same_version v w = Ordering.eq

abbrev listing : Option (Option (List (Option IdEntry)))
listing = some (
    some (
      some (record {
        is_dir = some true;
        file_name = hello;
        versions = some (
            some (record {
              is_file = some true;
              extension = some (b'j' ∷ b's' ∷ b'o' ∷ b'n' ∷ []);
              file_stem = some (b'1' ∷ []);
              path = index_file;
            })
            ∷ []);
      })
      ∷ []))

load_registry-latest_example :
    (IsBacked formats libraries parse_record same_version root stored entry × (entry.id ≡ hello))
    × IsGreatest formats libraries parse_record same_version entry.version
        (retain (λ s. text_eq s.id hello) (entry ∷ []))
unfolding load_registry latest signed superspace.Protocol.Paths.is_absolute expected_path envelope
    verify_registry_package superspace.Base.Text.as_bytes encode_hex read_from
    superspace.Base.Text.trim superspace.Extensions.Policy.names superspace.Base.Sort.sort_by
load_registry-latest_example =
    load_registry-latest formats libraries parse_record same_version (λ a b h. refl)
      (λ a b c h k. refl) root stored listing hello (entry ∷ []) entry refl refl
