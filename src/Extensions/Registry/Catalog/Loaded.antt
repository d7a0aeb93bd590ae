-- ===== src/Extensions/Registry/Catalog/Loaded.antt =====
-- What a loaded catalog holds (crates/extensions/src/registry.rs).
use superspace.Base.{
  ℕ, ◌≡◌, sym, ap, subst, ◌∙◌, ◌&&◌, Option, none, some, List, [], ◌∷◌, ◌++◌, arith, All,
  All-append, Bool-cases, inl, inr, take, length, take_all, length-take, ltb, ◌+◌, ◌≤◌,
}
use superspace.Base.Bytes.{Bytes}
use superspace.Base.Result.{ok, err, guard, ok_or, bind-ok}
use superspace.Base.Sort.{sort_by, sort_by-All}
use superspace.Base.Text.{Text, text_eq}
use Prim.Native.Nat.{Ordering}
use superspace.Extensions.Package.{Formats, ExtensionPackage}
use superspace.Extensions.Registry.{
  invalid_record, io, json, RegistryRecord, Libraries, max_package_bytes, verify_registry_package,
}
use superspace.Extensions.Registry.Publish.{Files}
use superspace.Extensions.Registry.Catalog.{
  VersionEntry, IdEntry, join, read_bounded, check_size, is_some_text, compare_records,
  load_version, load_versions, load_id, load_ids, load_registry, max_record_bytes, json_extension,
}

check_size-ok :
    (maximum : ℕ) (found : Option Bytes) (bytes : Bytes)
    → check_size maximum found ≡ ok bytes
    → found ≡ some bytes
unfolding check_size
check_size-ok maximum none bytes h = cc
check_size-ok maximum (some found) bytes h =
    elim (Bool-cases (ltb maximum (length (take (maximum + 1) found)))) [
      | inl e ↦ absurd (cc (rw e at h))
      | inr e ↦
          let small : length found ≤ maximum + 1 =
            ground (arith, e, length-take (maximum + 1) found) in
          ap some (sym (take_all (maximum + 1) found small))
          ∙ ap (λ r. elim r [ ok b ↦ some b | err x ↦ none ]) (rw e at h)
    ]

module _ {Version : Type 0} (formats : Formats Version) (libraries : Libraries Version)
    (from_slice : Bytes → Option (RegistryRecord Version))
    (cmp : Version → Version → Ordering) where
  abbrev sorting : RegistryRecord Version → RegistryRecord Version → Ordering
  sorting = compare_records formats libraries from_slice cmp

  -- A record's package is there, and verified against it.
  pub record IsBacked (root : Text) (files : Files) (r : RegistryRecord Version) : Type 0 where
    pub bytes : Bytes
    pub there : files (join root r.package_path) ≡ some bytes
    pub contents : ExtensionPackage Version
    pub verified : verify_registry_package formats libraries r bytes ≡ ok contents

  module _ (root : Text) (files : Files) where
    load_version-IsBacked :
        (id : Text) (entry : VersionEntry) (r : RegistryRecord Version)
        → load_version formats libraries from_slice cmp root files id entry ≡ ok r
        → IsBacked root files r
    unfolding load_version read_bounded
    load_version-IsBacked id entry r h =
        let a = bind-ok (ok_or entry.is_file io) _ r h in
        let b =
          bind-ok (guard (a.value && is_some_text entry.extension json_extension) invalid_record) _
            r a.then_ok in
        let c = bind-ok (read_bounded files entry.path (max_record_bytes)) _ r b.then_ok in
        let d = bind-ok (ok_or (from_slice c.value) json) _ r c.then_ok in
        let e =
          bind-ok
            (guard
              (text_eq id d.value.id
                && is_some_text entry.file_stem (libraries.version_to_string d.value.version))
              invalid_record)
            _ r d.then_ok in
        let f =
          bind-ok (read_bounded files (join root d.value.package_path) max_package_bytes) _ r
            e.then_ok in
        let g = bind-ok (verify_registry_package formats libraries d.value f.value) _ r f.then_ok in
        let same : d.value ≡ r = cc (g.then_ok) in
        subst (IsBacked root files) same (record {
          bytes = f.value;
          there = check_size-ok max_package_bytes _ f.value f.first;
          contents = g.value;
          verified = g.first;
        })

    load_versions-IsBacked :
        (id : Text) (entries : List (Option VersionEntry)) (rs : List (RegistryRecord Version))
        → load_versions formats libraries from_slice cmp root files id entries ≡ ok rs
        → All (IsBacked root files) rs
    unfolding load_versions
    load_versions-IsBacked id [] rs h =
        subst (All (IsBacked root files)) (let e : [] ≡ rs = cc in e) tt
    load_versions-IsBacked id (none ∷ entries) rs h = absurd cc
    load_versions-IsBacked id (some entry ∷ entries) rs h =
        let a =
          bind-ok (load_version formats libraries from_slice cmp root files id entry) _ rs h in
        let b =
          bind-ok (load_versions formats libraries from_slice cmp root files id entries) _ rs
            a.then_ok in
        let same : a.value ∷ b.value ≡ rs = cc (b.then_ok) in
        subst (All (IsBacked root files)) same (
          load_version-IsBacked id entry a.value a.first,
          load_versions-IsBacked id entries b.value b.first,
        )

    load_id-IsBacked :
        (entry : IdEntry) (rs : List (RegistryRecord Version))
        → load_id formats libraries from_slice cmp root files entry ≡ ok rs
        → All (IsBacked root files) rs
    unfolding load_id
    load_id-IsBacked entry rs h =
        let a = bind-ok (ok_or entry.is_dir io) _ rs h in
        let b = bind-ok (guard a.value invalid_record) _ rs a.then_ok in
        let c = bind-ok (ok_or entry.versions io) _ rs b.then_ok in
        load_versions-IsBacked entry.file_name c.value rs c.then_ok

    load_ids-IsBacked :
        (entries : List (Option IdEntry)) (rs : List (RegistryRecord Version))
        → load_ids formats libraries from_slice cmp root files entries ≡ ok rs
        → All (IsBacked root files) rs
    unfolding load_ids
    load_ids-IsBacked [] rs h = subst (All (IsBacked root files)) (let e : [] ≡ rs = cc in e) tt
    load_ids-IsBacked (none ∷ entries) rs h = absurd cc
    load_ids-IsBacked (some entry ∷ entries) rs h =
        let a = bind-ok (load_id formats libraries from_slice cmp root files entry) _ rs h in
        let b =
          bind-ok (load_ids formats libraries from_slice cmp root files entries) _ rs a.then_ok in
        let same : a.value ++ b.value ≡ rs = cc (b.then_ok) in
        subst (All (IsBacked root files)) same (
          All-append (IsBacked root files) a.value b.value (load_id-IsBacked entry a.value a.first)
            (load_ids-IsBacked entries b.value b.first))

    pub load_registry-IsBacked :
        (listing : Option (Option (List (Option IdEntry))))
        (records : List (RegistryRecord Version))
        → load_registry formats libraries from_slice cmp root files listing ≡ ok records
        → All (IsBacked root files) records
    unfolding load_registry
    load_registry-IsBacked none records h =
        subst (All (IsBacked root files)) (let e : [] ≡ records = cc in e) tt
    load_registry-IsBacked (some none) records h = absurd cc
    load_registry-IsBacked (some (some entries)) records h =
        let a =
          bind-ok (load_ids formats libraries from_slice cmp root files entries) _ records h in
        let same : sort_by sorting a.value ≡ records = cc (a.then_ok) in
        subst (All (IsBacked root files)) same (
          sort_by-All sorting (IsBacked root files) a.value
            (load_ids-IsBacked entries a.value a.first))
