-- ===== src/Core/Preferences/Saving.antt =====
-- How crates/core/src/preferences.rs keeps the preferences in a file: what was saved is what is loaded, and a
-- save that fails does not touch the file.
use superspace.Base.{◌≡◌, refl, inl, inr, Option, none, some, Bool-cases}
use superspace.Base.Bytes.{Bytes}
use superspace.Base.Result.{Result, ok, err}
use superspace.Core.Preferences.{
  LauncherPreferences, PreferencesError, validate, Json, Read, bytes, not_found, Disk, Io, load,
  publish, write_file, save_checked, save,
}

-- What reading the file answers afterwards.
abbrev pub read : Option Bytes → Read
read none = not_found
read (some content) = bytes content

-- JSON that was written reads back as what was written.
pub record ReadsBack (format : Json) : Type 0 where
  pub parses :
      (self : LauncherPreferences) (content : Bytes)
      → format.to_vec_pretty self ≡ some content
      → format.from_slice content ≡ some self

-- A save that succeeded is loaded again and leaves no temporary file; one that failed left the file alone.
unfoldable pub Outcome :
    Json → LauncherPreferences → Disk → Disk × Result PreferencesError (Unit {0}) → Type 0
Outcome format self before (after, ok t) =
    (load format (read after.target) ≡ ok self) × (after.temporary ≡ none)
Outcome format self before (after, err e) = after.target ≡ before.target

module _ (format : Json) (json : ReadsBack format) where
  load-read :
      (self : LauncherPreferences) (content : Bytes)
      → format.from_slice content ≡ some self
      → validate self ≡ ok tt
      → load format (bytes content) ≡ ok self
  unfolding load
  load-read self content parsed valid = rw (parsed, valid) refl

  publish-Outcome :
      (env : Io) (self : LauncherPreferences) (content : Bytes) (disk : Disk)
      → load format (bytes content) ≡ ok self
      → Outcome format self disk (publish format env content disk)
  unfolding publish Outcome
  publish-Outcome env self content disk loaded = elim (Bool-cases env.rename) [
    | inl renamed ↦ rw renamed (loaded, refl)
    | inr failed ↦ rw failed refl
  ]

  write_file-Outcome :
      (env : Io) (self : LauncherPreferences) (written : Option Bytes) (disk : Disk)
      → format.to_vec_pretty self ≡ written
      → validate self ≡ ok tt
      → Outcome format self disk (write_file format env written disk)
  unfolding write_file Outcome
  write_file-Outcome env self none disk e valid = refl
  write_file-Outcome env self (some content) disk e valid = elim (Bool-cases env.write) [
    | inl wrote ↦ rw wrote (
        publish-Outcome env self content disk
          (load-read self content (json.parses self content e) valid))
    | inr failed ↦ rw failed refl
  ]

  save_checked-Outcome :
      (checked : Result PreferencesError Unit) (env : Io) (self : LauncherPreferences) (disk : Disk)
      → validate self ≡ checked
      → Outcome format self disk (save_checked format checked env self disk)
  unfolding save_checked Outcome
  save_checked-Outcome (err e) env self disk valid = refl
  save_checked-Outcome (ok t) env self disk valid = elim (Bool-cases env.create_dir_all) [
    | inl made ↦ rw made (write_file-Outcome env self (format.to_vec_pretty self) disk refl valid)
    | inr failed ↦ rw failed refl
  ]

  -- Where JSON reads back what it wrote: whatever the operating system answers, a save that succeeds leaves a file
  -- from which the same preferences are loaded, and no temporary file; one that fails leaves the file as it was.
  pub save-load :
      (env : Io) (self : LauncherPreferences) (disk : Disk)
      → Outcome format self disk (save format env self disk)
  unfolding save
  save-load env self disk = save_checked-Outcome (validate self) env self disk refl
