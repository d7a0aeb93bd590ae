-- ===== src/Extensions/Registry/Payload.antt =====
-- What a signature of crates/extensions/src/registry.rs covers: the joined fields of a record determine it.
use superspace.Base.{
  ℕ, zero, suc, ◌≡◌, refl, sym, subst, ap, ap₂, ◌∙◌, true, ◌&&◌, not, List, [], ◌∷◌, ◌++◌, All,
  All-append, both_left,
}
use superspace.Base.Bytes.{Bytes, IsByte}
use superspace.Base.Result.{ok, guard, bind-ok, guard-ok}
use superspace.Base.Text.{
  Text, text_eq, is_empty, trim, IsScalar, as_bytes, as_bytes-append, as_bytes_injective,
}
use superspace.Extensions.Package.{
  ExtensionPackage, Formats, new, validate_manifest, manifest, interface_id, valid_identifier,
}
use superspace.Extensions.Manifest.{ExtensionManifest}
use superspace.Extensions.Package.Identifier.{valid_identifier-parts}
use superspace.Extensions.Registry.Hex.{as_bytes-encode_hex}
use superspace.Extensions.Registry.Nonzero.{
  IsNonzero, join_zero_injective, encode_hex-IsNonzero, decode_fixed-IsNonzero, all_bytes-IsNonzero,
  dir-IsNonzero, slash-IsNonzero, suffix-IsNonzero, schema-IsNonzero,
}
use superspace.Extensions.Registry.Verified.{IsVerified, verify-IsVerified}
use superspace.Extensions.Package.Accepted.{read_from-IsEnvelope}
use superspace.Extensions.Registry.{
  RegistryRecord, Libraries, signed_parts, packages_dir, package_suffix, expected_path,
  signing_payload, verify_registry_package, to_string,
}

module _ {Version : Type 0} (formats : Formats Version) (libraries : Libraries Version) where
  open libraries use {version_to_string}
  open formats use {hash}

  abbrev part_of : ℕ → List Bytes → Bytes
  part_of n [] = []
  part_of zero (p ∷ ps) = p
  part_of (suc n) (p ∷ ps) = part_of n ps

  -- The types of a record's fields: two of its texts hold characters.
  pub record IsRecord (r : RegistryRecord Version) : Type 0 where
    pub id_scalars : All IsScalar r.id
    pub key_scalars : All IsScalar r.publisher_key

  new-valid_identifier :
      (m : ExtensionManifest Version) (bytes : Bytes) (p : ExtensionPackage Version)
      → new formats m bytes ≡ ok p
      → valid_identifier m.id ≡ true
  unfolding new validate_manifest
  new-valid_identifier m bytes p h =
      let a = bind-ok (validate_manifest m) _ p h in
      let b = bind-ok (guard (text_eq m.interface interface_id) manifest) _ a.value a.first in
      let c =
        bind-ok (guard (valid_identifier m.id && not (is_empty (trim m.name))) manifest) _ a.value
          b.then_ok in
      both_left _ _ (guard-ok _ manifest c.value c.first)

  expected_path-IsNonzero :
      (id : Text) (version : Version)
      → All IsNonzero (as_bytes id)
      → All IsNonzero (as_bytes (version_to_string version))
      → All IsNonzero (as_bytes (expected_path formats libraries id version))
  unfolding expected_path
  expected_path-IsNonzero id version h k =
      rw
        (
          as_bytes-append packages_dir
              (id ++ (b'/' ∷ (version_to_string version ++ package_suffix))),
          as_bytes-append id (b'/' ∷ (version_to_string version ++ package_suffix)),
          as_bytes-append (b'/' ∷ []) (version_to_string version ++ package_suffix),
          as_bytes-append (version_to_string version) package_suffix,
        )
        (All-append IsNonzero (as_bytes packages_dir) _ dir-IsNonzero (
          All-append IsNonzero (as_bytes id) _ h (
            All-append IsNonzero (as_bytes (b'/' ∷ [])) _ slash-IsNonzero
              (All-append IsNonzero (as_bytes (version_to_string version)) _ k suffix-IsNonzero))))

  signed_parts-IsNonzero :
      (r : RegistryRecord Version) (bytes : Bytes) (p : ExtensionPackage Version)
      → ((v : Version) → All IsNonzero (as_bytes (version_to_string v)))
      → ((xs : Bytes) → All IsByte (hash xs))
      → All IsByte bytes
      → IsVerified formats libraries r bytes p
      → All (All IsNonzero) (signed_parts formats libraries r)
  signed_parts-IsNonzero r bytes p versions digests u8 v =
      let envelope = read_from-IsEnvelope formats bytes p u8 v.read in
      let valid = new-valid_identifier p.manifest p.module_bytes p envelope.valid in
      let ids =
        subst (λ id. All IsNonzero (as_bytes id)) v.same_id
          (all_bytes-IsNonzero (as_bytes p.manifest.id)
            (valid_identifier-parts p.manifest.id valid).1) in
      (
        subst (λ n. All IsNonzero (as_bytes (to_string n))) (sym v.schema) schema-IsNonzero,
        (
          ids,
          (
            versions r.version,
            (
              subst (λ path. All IsNonzero (as_bytes path)) (sym v.path)
                  (expected_path-IsNonzero r.id r.version ids (versions r.version)),
              (
                subst (λ s. All IsNonzero (as_bytes s)) (sym v.hashed)
                    (subst (All IsNonzero) (sym (as_bytes-encode_hex (hash bytes) (digests bytes)))
                      (encode_hex-IsNonzero (hash bytes) (digests bytes))),
                (decode_fixed-IsNonzero 32 r.publisher_key v.key_bytes v.key_decoded, tt),
              ),
            ),
          ),
        ),
      )

  -- The signature binds the record: two records that were verified, each against some bytes, and whose
  -- signatures cover the same payload are the same but for the signatures. A version in text has no
  -- zero and determines the version.
  pub signing_payload_injective :
      (r r' : RegistryRecord Version) (bytes bytes' : Bytes) (p p' : ExtensionPackage Version)
      → ((v : Version) → All IsNonzero (as_bytes (version_to_string v)))
      → ((v w : Version) → as_bytes (version_to_string v) ≡ as_bytes (version_to_string w) → v ≡ w)
      → ((xs : Bytes) → All IsByte (hash xs))
      → All IsByte bytes
      → All IsByte bytes'
      → IsRecord r
      → IsRecord r'
      → verify_registry_package formats libraries r bytes ≡ ok p
      → verify_registry_package formats libraries r' bytes' ≡ ok p'
      → signing_payload formats libraries r ≡ signing_payload formats libraries r'
      → record r { signature = r'.signature } ≡ r'
  unfolding signing_payload
  signing_payload_injective r r' bytes bytes' p p' nonzero injective digests u8 u8' t t' h h' e =
      let v = verify-IsVerified formats libraries r bytes p h in
      let v' = verify-IsVerified formats libraries r' bytes' p' h' in
      let parts =
        join_zero_injective (signed_parts formats libraries r) (signed_parts formats libraries r')
          (signed_parts-IsNonzero r bytes p nonzero digests u8 v)
          (signed_parts-IsNonzero r' bytes' p' nonzero digests u8' v') refl e in
      let ids = as_bytes_injective r.id r'.id t.id_scalars t'.id_scalars (ap (part_of 1) parts) in
      let versions = injective r.version r'.version (ap (part_of 2) parts) in
      let paths = v.path ∙ ap₂ (expected_path formats libraries) ids versions ∙ sym v'.path in
      let hashes =
        v.hashed
        ∙ sym (ap as_bytes v.hashed ∙ as_bytes-encode_hex (hash bytes) (digests bytes))
        ∙ ap (part_of 4) parts
        ∙ ap as_bytes v'.hashed
        ∙ as_bytes-encode_hex (hash bytes') (digests bytes')
        ∙ sym v'.hashed in
      let keys =
        as_bytes_injective r.publisher_key r'.publisher_key t.key_scalars t'.key_scalars
          (ap (part_of 5) parts) in
      rw (v.schema, v'.schema, ids, versions, paths, hashes, keys) refl
