-- ===== src/Extensions/Registry/Verified.antt =====
-- What verifying a package against its record establishes (crates/extensions/src/registry.rs).
use superspace.Base.{
  ℕ, ◌≤◌, ◌≡◌, refl, sym, ap, subst, ◌∙◌, ◌↔◌, true, ◌&&◌, some, arith, length, leb, ◌==◌, ==_iff,
  both_left, both_right,
}
use superspace.Base.Bytes.{Bytes}
use superspace.Base.Result.{ok, guard, ok_or, map_err, bind-ok, guard-ok, ok_or-ok, map_err-ok}
use superspace.Base.Text.{text_eq, text_eq→≡, ≡→text_eq}
use superspace.Extensions.Package.{ExtensionPackage, Formats, read_from}
use superspace.Extensions.Registry.{
  invalid_key, invalid_signature, invalid_record, hash_mismatch, package_error, RegistryRecord,
  Libraries, current_schema, max_package_bytes, encode_hex, decode_fixed, expected_path,
  signing_payload, verify_registry_package,
}

module _ {Version : Type 0} (formats : Formats Version) (libraries : Libraries Version) where
  open libraries use {version_eq, VerifyingKey, key_from_bytes, verify}

  -- A record that a package bears out: its schema and path are the expected ones, its key signed its
  -- other fields, its hash is that of the package, and the package is read and has its identifier and
  -- version.
  pub record IsVerified (r : RegistryRecord Version) (bytes : Bytes) (p : ExtensionPackage Version)
      : Type 0 where
    pub schema : r.schema ≡ current_schema
    pub sized : length bytes ≤ max_package_bytes
    pub path : r.package_path ≡ expected_path formats libraries r.id r.version
    pub key_bytes : Bytes
    pub key_decoded : decode_fixed 32 r.publisher_key ≡ ok key_bytes
    pub key : VerifyingKey
    pub key_parsed : key_from_bytes key_bytes ≡ some key
    pub signature : Bytes
    pub signature_decoded : decode_fixed 64 r.signature ≡ ok signature
    pub signed : verify key (signing_payload formats libraries r) signature ≡ true
    pub hashed : r.package_hash ≡ encode_hex (formats.hash bytes)
    pub read : read_from formats bytes ≡ ok p
    pub same_id : p.manifest.id ≡ r.id
    pub same_version : version_eq p.manifest.version r.version ≡ true

  leb-≤ : (a b : ℕ) → leb a b ≡ true → a ≤ b
  leb-≤ a b h = ground arith

  pub verify-IsVerified :
      (r : RegistryRecord Version) (bytes : Bytes) (p : ExtensionPackage Version)
      → verify_registry_package formats libraries r bytes ≡ ok p
      → IsVerified r bytes p
  unfolding verify_registry_package
  verify-IsVerified r bytes p h =
      let a =
        bind-ok
          (guard (r.schema == current_schema && leb (length bytes) max_package_bytes)
            invalid_record)
          _ p h in
      let b =
        bind-ok
          (guard (text_eq r.package_path (expected_path formats libraries r.id r.version))
            invalid_record)
          _ p a.then_ok in
      let c =
        bind-ok (map_err (λ e. invalid_key) (decode_fixed 32 r.publisher_key)) _ p b.then_ok in
      let d = bind-ok (ok_or (key_from_bytes c.value) invalid_key) _ p c.then_ok in
      let e =
        bind-ok (map_err (λ e. invalid_signature) (decode_fixed 64 r.signature)) _ p d.then_ok in
      let f =
        bind-ok
          (guard (verify d.value (signing_payload formats libraries r) e.value) invalid_signature) _
          p e.then_ok in
      let g =
        bind-ok (guard (text_eq (encode_hex (formats.hash bytes)) r.package_hash) hash_mismatch) _ p
          f.then_ok in
      let i = bind-ok (map_err package_error (read_from formats bytes)) _ p g.then_ok in
      let j =
        bind-ok
          (guard (text_eq i.value.manifest.id r.id && version_eq i.value.manifest.version r.version)
            invalid_record)
          _ p i.then_ok in
      let header = guard-ok _ invalid_record a.value a.first in
      let same = guard-ok _ invalid_record j.value j.first in
      let q : i.value ≡ p = cc (j.then_ok) in
      record {
        schema = (==_iff r.schema current_schema).0 (both_left _ _ header);
        sized = leb-≤ _ _ (both_right _ _ header);
        path = text_eq→≡ r.package_path _ (guard-ok _ invalid_record b.value b.first);
        key_bytes = c.value;
        key_decoded = map_err-ok _ _ c.value c.first;
        key = d.value;
        key_parsed = ok_or-ok _ invalid_key d.value d.first;
        signature = e.value;
        signature_decoded = map_err-ok _ _ e.value e.first;
        signed = guard-ok _ invalid_signature f.value f.first;
        hashed = sym (text_eq→≡ _ r.package_hash (guard-ok _ hash_mismatch g.value g.first));
        read = map_err-ok package_error _ i.value i.first ∙ ap ok q;
        same_id = subst (λ x. x.manifest.id ≡ r.id) q (text_eq→≡ _ r.id (both_left _ _ same));
        same_version =
            subst (λ x. version_eq x.manifest.version r.version ≡ true) q (both_right _ _ same);
      }

  header_passes :
      (schema size : ℕ)
      → schema ≡ current_schema
      → size ≤ max_package_bytes
      → (schema == current_schema && leb size max_package_bytes) ≡ true
  header_passes schema size e h = ground arith

  pub IsVerified-verify :
      (r : RegistryRecord Version) (bytes : Bytes) (p : ExtensionPackage Version)
      → IsVerified r bytes p
      → verify_registry_package formats libraries r bytes ≡ ok p
  unfolding verify_registry_package
  IsVerified-verify r bytes p v =
      rw
        (
          v.key_decoded,
          v.key_parsed,
          v.signature_decoded,
          v.signed,
          v.read,
          v.same_version,
          ≡→text_eq r.package_path _ v.path,
          ≡→text_eq _ r.package_hash (sym v.hashed),
          ≡→text_eq p.manifest.id r.id v.same_id,
        )
        (rw (header_passes r.schema (length bytes) v.schema v.sized) refl)

  -- A package is verified against a record exactly when the record is borne out by it.
  pub verify_registry_package_iff :
      (r : RegistryRecord Version) (bytes : Bytes) (p : ExtensionPackage Version)
      → (verify_registry_package formats libraries r bytes ≡ ok p) ↔ IsVerified r bytes p
  verify_registry_package_iff r bytes p = (verify-IsVerified r bytes p, IsVerified-verify r bytes p)
