-- ===== src/Extensions/Package/Examples.antt =====
-- The packages of crates/extensions/src/package.rs on examples, with a manifest of one command, a
-- constant digest, and a JSON with one text.
use superspace.Base.{
  ℕ, ◌≡◌, refl, Bool, true, Option, some, List, [], ◌∷◌, ◌++◌, arith, leb, if◌then◌else◌,
}
use superspace.Base.Bytes.{Bytes, are_bytes-All}
use superspace.Base.Result.{ok, err, ◌>>=◌}
use superspace.Base.Text.{Text}
use superspace.Extensions.Manifest.{ExtensionManifest}
use superspace.Extensions.Policy.{clipboard_read}
use superspace.Extensions.Package.{
  ExtensionPackage, Formats, interface_id, too_large, hash_mismatch, bad_magic, new, envelope,
  write_to, read_from, max_manifest_bytes,
}
use superspace.Extensions.Package.Envelope.{read_from-write_to}
use superspace.Extensions.Package.Accepted.{IsEnvelope, read_from_iff}

abbrev hello : Text
hello = b'h' ∷ b'i' ∷ []

abbrev demo : ExtensionManifest ℕ
demo = record {
  id = hello;
  name = hello;
  version = 1;
  interface = interface_id;
  commands = record { id = hello; title = hello; keywords = [] } ∷ [];
  capabilities = clipboard_read ∷ [];
}

abbrev component : Bytes
component = 0 ∷ b'a' ∷ b's' ∷ b'm' ∷ 0x0d ∷ 0 ∷ 1 ∷ 0 ∷ []

abbrev eight : Bytes
eight = 1 ∷ 2 ∷ 3 ∷ 4 ∷ 5 ∷ 6 ∷ 7 ∷ 8 ∷ []

abbrev digest : Bytes
digest = eight ++ (eight ++ (eight ++ eight))

abbrev json_text : Bytes
json_text = b'{' ∷ b'}' ∷ []

abbrev formats : Formats ℕ
formats = record {
  to_vec = λ m. some json_text;
  from_slice = λ bytes. some demo;
  hash = λ bytes. digest;
  validate_all = λ bytes. true;
  is_component = λ bytes. true;
}

abbrev packed : ExtensionPackage ℕ
packed = record { manifest = demo; module_hash = digest; module_bytes = component }

made : new formats demo component ≡ ok packed
unfolding new superspace.Extensions.Package.valid_commands superspace.Base.Text.as_bytes
    superspace.Base.Text.trim superspace.Extensions.Policy.names superspace.Extensions.Policy.any
made = refl

read_from-write_to_example :
    (write_to formats packed >>= read_from formats)
    ≡ (if leb 2 max_manifest_bytes then ok packed else err too_large)
read_from-write_to_example =
    read_from-write_to formats demo component json_text packed (λ xs. refl) refl refl made

accepted : IsEnvelope formats (envelope formats json_text component digest) packed
accepted = record {
  manifest_bytes = json_text;
  bounded = omega arith;
  parsed = refl;
  valid = made;
  shape = refl;
}

read_from_iff_example : read_from formats (envelope formats json_text component digest) ≡ ok packed
unfolding envelope
read_from_iff_example =
    (read_from_iff formats (envelope formats json_text component digest) packed (λ xs. refl)
        (are_bytes-All (envelope formats json_text component digest) refl)).1
      accepted

read_foreign :
    read_from formats (b'x' ∷ envelope formats json_text component digest) ≡ err bad_magic
unfolding read_from envelope
read_foreign = refl
