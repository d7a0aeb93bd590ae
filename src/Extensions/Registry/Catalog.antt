-- ===== src/Extensions/Registry/Catalog.antt =====
-- crates/extensions/src/registry.rs: RegistryCatalog and load_registry. The listing of the index is an argument:
-- what each directory entry answers; the contents of the files are a map.
pub mod Loaded
pub mod Latest
use superspace.Base.{
  ℕ, ◌+◌, ◌*◌, Bool, true, false, not, ◌&&◌, Option, none, some, List, [], ◌∷◌, ◌++◌, length, take,
  leb, ltb, if◌then◌else◌, retain,
}
use superspace.Base.Bytes.{Bytes}
use superspace.Base.Order.{then_cmp}
use superspace.Base.Result.{Result, ok, err, ◌>>=◌, ◌>>◌, guard, ok_or}
use superspace.Base.Sort.{sort_by, is_gt}
use superspace.Base.Text.{Text, text_eq, compare_text}
use superspace.Protocol.Paths.{is_absolute}
use Prim.Native.Nat.{Ordering}
use superspace.Extensions.Package.{Formats}
use superspace.Extensions.Registry.{
  RegistryError, invalid_record, too_large, io, json, RegistryRecord, Libraries, max_package_bytes,
  verify_registry_package,
}
use superspace.Extensions.Registry.Publish.{Files}

-- A directory entry below an extension's directory; a part of a name that is no UTF-8 or not there is
-- none, and so is an answer that fails.
pub record VersionEntry : Type 0 where
  pub is_file : Option Bool
  pub extension : Option Text
  pub file_stem : Option Text
  pub path : Text

-- An entry of the index: its name, and its own entries, each of which can fail.
pub record IdEntry : Type 0 where
  pub is_dir : Option Bool
  pub file_name : Text
  pub versions : Option (List (Option VersionEntry))

-- `Path::join`
unfoldable pub join : Text → Text → Text
join root path = if is_absolute path then path else root ++ (b'/' ∷ path)

check_size : ℕ → Option Bytes → Result RegistryError Bytes
check_size maximum none = err io
check_size maximum (some bytes) =
    let found = take (maximum + 1) bytes in
    if ltb maximum (length found) then err too_large else ok found

unfoldable pub read_bounded : Files → Text → ℕ → Result RegistryError Bytes
unfolding check_size
read_bounded files path maximum = check_size maximum (files path)

abbrev pub is_some_text : Option Text → Text → Bool
is_some_text none t = false
is_some_text (some s) t = text_eq s t

abbrev pub max_record_bytes : ℕ
max_record_bytes = 1024 * 1024

abbrev json_extension : Text
json_extension = b'j' ∷ b's' ∷ b'o' ∷ b'n' ∷ []

module _ {Version : Type 0} (formats : Formats Version) (libraries : Libraries Version)
    (from_slice : Bytes → Option (RegistryRecord Version))
    (cmp : Version → Version → Ordering) where
  open libraries use {version_to_string, version_eq}

  first_of :
      (RegistryRecord Version → Bool)
      → List (RegistryRecord Version)
      → Option (RegistryRecord Version)
  first_of test [] = none
  first_of test (r ∷ rs) = let rest = first_of test rs in if test r then some r else rest

  -- `RegistryCatalog::find`
  unfoldable pub find :
      Text → Version → List (RegistryRecord Version) → Option (RegistryRecord Version)
  unfolding first_of
  find id version records = first_of (λ r. text_eq r.id id && version_eq r.version version) records

  -- `Iterator::max_by`: of equal elements the last.
  unfoldable pub max_from :
      RegistryRecord Version → List (RegistryRecord Version) → RegistryRecord Version
  max_from best [] = best
  max_from best (r ∷ rs) = max_from (if is_gt (cmp best.version r.version) then best else r) rs

  unfoldable pub max_by : List (RegistryRecord Version) → Option (RegistryRecord Version)
  unfolding max_from
  max_by [] = none
  max_by (r ∷ rs) = some (max_from r rs)

  -- `RegistryCatalog::latest`
  unfoldable pub latest : Text → List (RegistryRecord Version) → Option (RegistryRecord Version)
  unfolding max_by
  latest id records = max_by (retain (λ r. text_eq r.id id) records)

  abbrev pub compare_records : RegistryRecord Version → RegistryRecord Version → Ordering
  compare_records left right =
      then_cmp (compare_text left.id right.id) (cmp right.version left.version)

  module _ (root : Text) (files : Files) where
    -- One version of the index.
    unfoldable pub load_version :
        Text → VersionEntry → Result RegistryError (RegistryRecord Version)
    unfolding read_bounded join
    load_version id entry = do
      is_file ← ok_or entry.is_file io
      guard (is_file && is_some_text entry.extension json_extension) invalid_record
      record_bytes ← read_bounded files entry.path (max_record_bytes)
      r ← ok_or (from_slice record_bytes) json
      guard (text_eq id r.id && is_some_text entry.file_stem (version_to_string r.version))
          invalid_record
      package_bytes ← read_bounded files (join root r.package_path) max_package_bytes
      p ← verify_registry_package formats libraries r package_bytes
      ok r

    unfoldable pub load_versions :
        Text → List (Option VersionEntry) → Result RegistryError (List (RegistryRecord Version))
    unfolding load_version
    load_versions id [] = ok []
    load_versions id (none ∷ entries) = err io
    load_versions id (some entry ∷ entries) =
        let tail = load_versions id entries in
        (do r ← load_version id entry; rs ← tail; ok (r ∷ rs))

    load_id : IdEntry → Result RegistryError (List (RegistryRecord Version))
    unfolding load_versions
    load_id entry = do
      is_dir ← ok_or entry.is_dir io
      guard is_dir invalid_record
      versions ← ok_or entry.versions io
      load_versions entry.file_name versions

    unfoldable pub load_ids :
        List (Option IdEntry) → Result RegistryError (List (RegistryRecord Version))
    unfolding load_id
    load_ids [] = ok []
    load_ids (none ∷ entries) = err io
    load_ids (some entry ∷ entries) =
        let tail = load_ids entries in (do rs ← load_id entry; ss ← tail; ok (rs ++ ss))

    -- `load_registry`: there is no index, or it cannot be listed, or its entries.
    unfoldable pub load_registry :
        Option (Option (List (Option IdEntry)))
        → Result RegistryError (List (RegistryRecord Version))
    unfolding load_ids
    load_registry none = ok []
    load_registry (some none) = err io
    load_registry (some (some entries)) = do
      records ← load_ids entries
      ok (sort_by compare_records records)
