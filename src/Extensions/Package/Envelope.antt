-- ===== src/Extensions/Package/Envelope.antt =====
-- Reading an envelope against writing it (crates/extensions/src/package.rs).
use superspace.Base.{
  ℕ, ◌+◌, ◌^◌, ◌≤◌, ◌<◌, ◌≡◌, refl, ap, ap₂, sym, ◌∙◌, true, ◌&&◌, some, [], ◌++◌, ltb, leb,
  if◌then◌else◌, arith, length, length-append, Bool-cases, inl, inr, take-length_append,
  drop-length_append, take_all, take-length_self, drop-length_self,
}
use superspace.Base.Bytes.{Bytes, from_le_bytes-to_le_bytes}
use superspace.Base.Result.{ok, err, ok_or, ◌>>=◌}
use superspace.Base.Text.{text_eq, text_eq_refl}
use superspace.Extensions.Manifest.{ExtensionManifest}
use superspace.Extensions.Package.{
  PackageError, ExtensionPackage, Formats, too_large, hash_mismatch, bad_magic, unsupported_version,
  trailing_data, json, max_manifest_bytes, max_module_bytes, new, magic, format_version, field_at,
  header_of, envelope, write_to, read_exact, read_body, read_from,
}

module _ {Version : Type 0} (formats : Formats Version) where
  open formats use {to_vec, from_slice, hash}

  read_exact_append :
      (n : ℕ) (xs ys : Bytes) → length xs ≡ n → read_exact formats n (xs ++ ys) ≡ ok (xs, ys)
  unfolding read_exact
  read_exact_append n xs ys h =
      rw (sym h, take-length_append xs ys, drop-length_append xs ys)
        (ground (arith, length-append xs ys))

  pub length-header_of :
      (manifest_len module_len : ℕ) (digest : Bytes)
      → length digest ≡ 32
      → length (header_of formats manifest_len module_len digest) ≡ 50
  length-header_of manifest_len module_len digest h = omega arith

  -- The header of an envelope, read.
  read_from_header :
      (manifest_len module_len : ℕ) (digest rest : Bytes)
      → length digest ≡ 32
      → manifest_len < 2 ^ 32
      → module_len < 2 ^ 32
      → read_from formats (header_of formats manifest_len module_len digest ++ rest) ≡ (
          if leb manifest_len max_manifest_bytes && leb module_len max_module_bytes
          then read_body formats manifest_len module_len digest rest
          else err too_large)
  unfolding read_from field_at
  read_from_header manifest_len module_len digest rest h lt lt' =
      rw
        (
          read_exact_append 50 (header_of formats manifest_len module_len digest) rest
              (length-header_of manifest_len module_len digest h),
          from_le_bytes-to_le_bytes 4 manifest_len lt,
          from_le_bytes-to_le_bytes 4 module_len lt',
          take_all 32 digest (omega arith),
        )
        (ground arith)

  read_exact_all : (xs : Bytes) → read_exact formats (length xs) xs ≡ ok (xs, [])
  unfolding read_exact
  read_exact_all xs = rw (take-length_self xs, drop-length_self xs) (ground arith)

  -- What follows the header, read.
  read_body_append :
      (manifest_bytes bytes digest : Bytes)
      → read_body formats (length manifest_bytes) (length bytes) digest (manifest_bytes ++ bytes)
        ≡ (if text_eq (hash bytes) digest
            then (ok_or (from_slice manifest_bytes) json >>= λ m. new formats m bytes)
            else err hash_mismatch)
  unfolding read_body
  read_body_append manifest_bytes bytes digest =
      rw (read_exact_append (length manifest_bytes) manifest_bytes bytes refl, read_exact_all bytes)
        (ground arith)

  -- What `new` returns consists of valid parts.
  pub record IsPackage (m : ExtensionManifest Version) (bytes : Bytes)
      (p : ExtensionPackage Version) : Type 0 where
    pub same_manifest : p.manifest ≡ m
    pub same_module : p.module_bytes ≡ bytes
    pub hashed : p.module_hash ≡ hash bytes
    pub fits : length bytes ≤ max_module_bytes

  pub new-IsPackage :
      (m : ExtensionManifest Version) (bytes : Bytes) (p : ExtensionPackage Version)
      → new formats m bytes ≡ ok p
      → IsPackage m bytes p
  unfolding new superspace.Extensions.Package.validate_component
  new-IsPackage m bytes p h = record {
    same_manifest = ground arith;
    same_module = ground arith;
    hashed = ground arith;
    fits = ground arith;
  }

  -- An envelope with the hash of its component, read.
  pub read_from-envelope :
      (manifest_bytes bytes : Bytes)
      → length (hash bytes) ≡ 32
      → length manifest_bytes < 2 ^ 32
      → length bytes ≤ max_module_bytes
      → read_from formats (envelope formats manifest_bytes bytes (hash bytes)) ≡ (
          if leb (length manifest_bytes) max_manifest_bytes
          then (ok_or (from_slice manifest_bytes) json >>= λ m. new formats m bytes)
          else err too_large)
  unfolding envelope
  read_from-envelope manifest_bytes bytes digest lt fits =
      rw
        (
          read_from_header (length manifest_bytes) (length bytes) (hash bytes)
              (manifest_bytes ++ bytes) digest lt (omega arith),
          read_body_append manifest_bytes bytes (hash bytes),
          text_eq_refl (hash bytes),
        )
        (ground arith)

  pub write_to_lem :
      (p : ExtensionPackage Version) (manifest_bytes : Bytes)
      → to_vec p.manifest ≡ some manifest_bytes
      → length p.module_bytes ≤ max_module_bytes
      → write_to formats p ≡ (
          if ltb (length manifest_bytes) (2 ^ 32)
          then ok (envelope formats manifest_bytes p.module_bytes p.module_hash)
          else err too_large)
  unfolding write_to superspace.Extensions.Package.usize_to_u32
  write_to_lem p manifest_bytes writes fits = rw writes (ground arith)

  -- A package that `new` made, written and read back, is that package, if its manifest is at most
  -- 1 MiB long in JSON; one with a larger manifest is refused as too large, by one or the other. JSON
  -- is to read back the manifest that it wrote, and a digest is to have 32 bytes.
  pub read_from-write_to :
      (m : ExtensionManifest Version) (bytes manifest_bytes : Bytes) (p : ExtensionPackage Version)
      → ((xs : Bytes) → length (hash xs) ≡ 32)
      → to_vec m ≡ some manifest_bytes
      → from_slice manifest_bytes ≡ some m
      → new formats m bytes ≡ ok p
      → (write_to formats p >>= read_from formats)
        ≡ (if leb (length manifest_bytes) max_manifest_bytes then ok p else err too_large)
  read_from-write_to m bytes manifest_bytes p digests writes reads made =
      let parts = new-IsPackage m bytes p made in
      let fits : length p.module_bytes ≤ max_module_bytes =
        omega (arith, parts.fits, ap length parts.same_module) in
      let written = write_to_lem p manifest_bytes (ap to_vec parts.same_manifest ∙ writes) fits in
      let same = ap₂ (envelope formats manifest_bytes) parts.same_module parts.hashed in
      elim (Bool-cases (ltb (length manifest_bytes) (2 ^ 32))) [
        | inl e ↦
            rw
              (
                written,
                e,
                same,
                read_from-envelope manifest_bytes bytes (digests bytes) (ground arith) parts.fits,
                reads,
                made,
              )
              (refl)
        | inr e ↦ rw (written, e) (ground arith)
      ]

  pub length-envelope :
      (manifest_bytes bytes digest : Bytes)
      → length digest ≡ 32
      → length (envelope formats manifest_bytes bytes digest)
        ≡ 50 + (length manifest_bytes + length bytes)
  unfolding envelope
  length-envelope manifest_bytes bytes digest h =
      let header = header_of formats (length manifest_bytes) (length bytes) digest in
      length-append header (manifest_bytes ++ bytes)
      ∙ ap₂ ◌+◌ (length-header_of (length manifest_bytes) (length bytes) digest h)
          (length-append manifest_bytes bytes)

  -- What was written is an envelope.
  pub write_to-ok :
      (p : ExtensionPackage Version) (manifest_bytes out : Bytes)
      → to_vec p.manifest ≡ some manifest_bytes
      → length p.module_bytes ≤ max_module_bytes
      → length manifest_bytes ≤ max_manifest_bytes
      → write_to formats p ≡ ok out
      → out ≡ envelope formats manifest_bytes p.module_bytes p.module_hash
  write_to-ok p manifest_bytes out e fits short h =
      let small : ltb (length manifest_bytes) (2 ^ 32) ≡ true = ground (arith, short) in
      ap (λ r. elim r [ ok bytes ↦ bytes | err x ↦ [] ])
        (sym h
          ∙ write_to_lem p manifest_bytes e fits
          ∙ ap
              (λ b.
                if b
                then ok (envelope formats manifest_bytes p.module_bytes p.module_hash)
                else err too_large)
              small)
