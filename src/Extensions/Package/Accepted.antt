-- ===== src/Extensions/Package/Accepted.antt =====
-- Which bytes are read as a package (crates/extensions/src/package.rs).
use superspace.Base.{
  ℕ, ◌+◌, ◌≤◌, ◌≡◌, refl, ap, ap₂, subst, sym, ◌∙◌, true, ◌&&◌, some, [], ◌∷◌, ◌++◌, leb, ◌==◌,
  arith, length, take, drop, ◌==◌, take-drop, drop-drop, All, All-take, All-prefix, ==_iff,
  All-drop, length-drop, length-take, ◌↔◌, take_all,
}
use mathlib.Core.List.{append-nil}
use superspace.Base.Bytes.{Bytes, IsByte, to_le_bytes-from_le_bytes, from_le_bytes, to_le_bytes}
use superspace.Base.Result.{ok, guard-ok, ok_or-ok, guard, bind-ok, ok_or}
use superspace.Base.Text.{text_eq, text_eq→≡, is_empty}
use superspace.Extensions.Package.Envelope.{new-IsPackage, read_from-envelope}
use superspace.Extensions.Package.{
  ExtensionPackage, Formats, too_large, hash_mismatch, bad_magic, unsupported_version,
  trailing_data, json, max_manifest_bytes, max_module_bytes, new, magic, format_version, field_at,
  header_of, envelope, read_exact, read_body, read_from,
}

module _ {Version : Type 0} (formats : Formats Version) where
  open formats use {to_vec, from_slice, hash}

  -- The bytes that are read as a package.
  pub record IsEnvelope (input : Bytes) (p : ExtensionPackage Version) : Type 0 where
    pub manifest_bytes : Bytes
    pub bounded : length manifest_bytes ≤ max_manifest_bytes
    pub parsed : from_slice manifest_bytes ≡ some p.manifest
    pub valid : new formats p.manifest p.module_bytes ≡ ok p
    pub shape : input ≡ envelope formats manifest_bytes p.module_bytes p.module_hash

  read_exact-ok :
      (n : ℕ) (input xs ys : Bytes)
      → read_exact formats n input ≡ ok (xs, ys)
      → (input ≡ xs ++ ys) × (length xs ≡ n)
  unfolding read_exact
  read_exact-ok n input xs ys h =
      let e : take n input ≡ xs = ground arith in
      let f : drop n input ≡ ys = ground arith in
      (sym (take-drop n input) ∙ ap₂ ◌++◌ e f, ground (arith, length-take n input))

  is_empty→≡ : (xs : Bytes) → is_empty xs ≡ true → xs ≡ []
  is_empty→≡ [] h = refl
  is_empty→≡ (x ∷ xs) h = cc

  -- The bytes from `n` are `k` bytes and those from `n + k`.
  split_at : (n k m : ℕ) (bs : Bytes) → n + k ≡ m → drop n bs ≡ take k (drop n bs) ++ drop m bs
  split_at n k m bs h =
      sym (take-drop k (drop n bs)) ∙ ap (λ ys. take k (drop n bs) ++ ys) (drop-drop k n m bs h)

  number_at :
      (n k : ℕ) (header : Bytes)
      → n + k ≤ length header
      → All IsByte header
      → take k (drop n header) ≡ to_le_bytes k (from_le_bytes (take k (drop n header)))
  number_at n k header h bytes =
      let f = take k (drop n header) in
      let e : length f ≡ k = omega (arith, length-take k (drop n header), length-drop n header) in
      subst (λ w. f ≡ to_le_bytes w (from_le_bytes f)) e
        (sym (
          to_le_bytes-from_le_bytes f
            (All-take IsByte k (drop n header) (All-drop IsByte n header bytes))))

  header-shape :
      (header : Bytes)
      → length header ≡ 50
      → All IsByte header
      → text_eq (field_at formats 0 8 header) magic ≡ true
      → from_le_bytes (field_at formats 8 10 header) ≡ format_version
      → header
        ≡ header_of formats
            (from_le_bytes (field_at formats 10 14 header))
            (from_le_bytes (field_at formats 14 18 header))
            (field_at formats 18 50 header)
  unfolding field_at
  header-shape header n h is_magic is_version =
      split_at 0 8 8 header refl
      ∙ ap₂ ◌++◌ (text_eq→≡ (take 8 header) magic is_magic) (
          split_at 8 2 10 header refl
          ∙ ap₂ ◌++◌ (number_at 8 2 header (omega arith) h ∙ ap (to_le_bytes 2) is_version) (
              split_at 10 4 14 header refl
              ∙ ap₂ ◌++◌ (number_at 10 4 header (omega arith) h) (
                  split_at 14 4 18 header refl
                  ∙ ap₂ ◌++◌ (number_at 14 4 header (omega arith) h)
                      (sym (take_all 32 (drop 18 header) (omega (arith, length-drop 18 header)))))))

  -- What `read_body` takes from its input.
  record Body (manifest_len module_len : ℕ) (digest input : Bytes) (p : ExtensionPackage Version)
      : Type 0 where
    manifest_bytes : Bytes
    manifest_sized : length manifest_bytes ≡ manifest_len
    module_sized : length p.module_bytes ≡ module_len
    hashed : digest ≡ p.module_hash
    read : input ≡ manifest_bytes ++ p.module_bytes
    parsed : from_slice manifest_bytes ≡ some p.manifest
    made : new formats p.manifest p.module_bytes ≡ ok p

  read_body-ok :
      (manifest_len module_len : ℕ) (digest input : Bytes) (p : ExtensionPackage Version)
      → read_body formats manifest_len module_len digest input ≡ ok p
      → Body manifest_len module_len digest input p
  unfolding read_body
  read_body-ok manifest_len module_len digest input p h =
      let a = bind-ok (read_exact formats manifest_len input) _ p h in
      let b = bind-ok (read_exact formats module_len a.value.1) _ p a.then_ok in
      let c = bind-ok (guard (is_empty b.value.1) trailing_data) _ p b.then_ok in
      let g = bind-ok (guard (text_eq (hash b.value.0) digest) hash_mismatch) _ p c.then_ok in
      let j = bind-ok (ok_or (from_slice a.value.0) json) _ p g.then_ok in
      let (e, n) = read_exact-ok manifest_len input a.value.0 a.value.1 a.first in
      let (e', n') = read_exact-ok module_len a.value.1 b.value.0 b.value.1 b.first in
      let parts = new-IsPackage formats j.value b.value.0 p j.then_ok in
      let nothing = is_empty→≡ b.value.1 (guard-ok _ trailing_data c.value c.first) in
      let digest_eq =
        text_eq→≡ (hash b.value.0) digest (guard-ok _ hash_mismatch g.value g.first) in
      record {
        manifest_bytes = a.value.0;
        manifest_sized = n;
        module_sized = ap length parts.same_module ∙ n';
        hashed = sym digest_eq ∙ sym parts.hashed;
        read =
            e
            ∙ ap (λ ys. a.value.0 ++ ys)
                (e' ∙ ap₂ ◌++◌ (sym parts.same_module) nothing ∙ append-nil p.module_bytes);
        parsed = ok_or-ok _ json j.value j.first ∙ ap some (sym parts.same_manifest);
        made = ap₂ (new formats) parts.same_manifest parts.same_module ∙ j.then_ok;
      }

  within_left : (a b x y : ℕ) → (leb a x && leb b y) ≡ true → a ≤ x
  within_left a b x y h = ground arith

  header_of_cong :
      {m m' n n' : ℕ} {digest digest' : Bytes}
      → m ≡ m'
      → n ≡ n'
      → digest ≡ digest'
      → header_of formats m n digest ≡ header_of formats m' n' digest'
  header_of_cong e f g = rw (e, f, g) refl

  pub read_from-IsEnvelope :
      (input : Bytes) (p : ExtensionPackage Version)
      → All IsByte input
      → read_from formats input ≡ ok p
      → IsEnvelope input p
  unfolding read_from envelope
  read_from-IsEnvelope input p bytes h =
      let a = bind-ok (read_exact formats 50 input) _ p h in
      let header = a.value.0 in
      let b =
        bind-ok (guard (text_eq (field_at formats 0 8 header) magic) bad_magic) _ p a.then_ok in
      let c =
        bind-ok
          (guard (from_le_bytes (field_at formats 8 10 header) == format_version)
            unsupported_version)
          _ p b.then_ok in
      let m = from_le_bytes (field_at formats 10 14 header) in
      let n = from_le_bytes (field_at formats 14 18 header) in
      let d =
        bind-ok (guard (leb m max_manifest_bytes && leb n max_module_bytes) too_large) _ p
          c.then_ok in
      let body = read_body-ok m n (field_at formats 18 50 header) a.value.1 p d.then_ok in
      let (e, sized) = read_exact-ok 50 input header a.value.1 a.first in
      let version = guard-ok _ unsupported_version c.value c.first in
      let within = guard-ok _ too_large d.value d.first in
      let header_bytes = All-prefix IsByte header a.value.1 (subst (All IsByte) e bytes) in
      let shape =
        header-shape header sized header_bytes (guard-ok _ bad_magic b.value b.first)
          ((==_iff _ format_version).0 version) in
      record {
        manifest_bytes = body.manifest_bytes;
        bounded =
            subst (λ k. k ≤ max_manifest_bytes) (sym body.manifest_sized)
              (within_left m n _ _ within);
        parsed = body.parsed;
        valid = body.made;
        shape =
            e
            ∙ ap₂ ◌++◌
                (shape
                  ∙ header_of_cong (sym body.manifest_sized) (sym body.module_sized) body.hashed)
                body.read;
      }

  IsEnvelope-read_from :
      (input : Bytes) (p : ExtensionPackage Version)
      → ((xs : Bytes) → length (hash xs) ≡ 32)
      → IsEnvelope input p
      → read_from formats input ≡ ok p
  IsEnvelope-read_from input p digests e =
      let parts = new-IsPackage formats p.manifest p.module_bytes p e.valid in
      ap (read_from formats)
        (e.shape ∙ ap (envelope formats e.manifest_bytes p.module_bytes) parts.hashed)
      ∙ read_from-envelope formats e.manifest_bytes p.module_bytes (digests p.module_bytes)
          (omega (arith, e.bounded)) parts.fits
      ∙ rw (e.parsed, e.valid) (ground (arith, e.bounded))

  -- The bytes that are read as a package are the envelopes of exactly that package: of a manifest of at
  -- most 1 MiB that is read as its manifest, of the hash of its component, and of the component with
  -- nothing behind it, where `new` accepts the manifest and the component. A digest has 32 bytes.
  pub read_from_iff :
      (input : Bytes) (p : ExtensionPackage Version)
      → ((xs : Bytes) → length (hash xs) ≡ 32)
      → All IsByte input
      → ((read_from formats input ≡ ok p) ↔ IsEnvelope input p)
  read_from_iff input p digests bytes =
      (read_from-IsEnvelope input p bytes, IsEnvelope-read_from input p digests)
