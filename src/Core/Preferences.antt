-- ===== src/Core/Preferences.antt =====
-- crates/core/src/preferences.rs: what the user set for each launcher item, and the file that keeps it. The
-- BTreeMap is a list in the order of its keys. JSON is a parameter, and what the operating system answers
-- is an argument.
pub mod Validity
pub mod Saving
mod Examples
use superspace.Base.{
  ℕ, ◌+◌, ◌-◌, ◌^◌, Bool, true, false, not, ◌&&◌, ◌||◌, Option, none, some, List, [], ◌∷◌, length,
  leb, ltb, ◌==◌, if◌then◌else◌,
}
use Prim.Native.Nat.{Ordering}
use superspace.Base.Bytes.{Bytes}
use superspace.Base.Result.{Result, ok, err, ◌>>=◌, ◌>>◌, guard, ok_or}
use superspace.Base.Text.{Text, as_bytes, text_eq, trim, is_empty, compare_text}

abbrev pub current_version : ℕ
current_version = 1

abbrev pub max_alias_chars : ℕ
max_alias_chars = 80

pub record LauncherPreference : Type 0 where
  pub alias : Option Text
  pub favorite : Bool
  pub frequency : ℕ

abbrev pub Items : Type 0
Items = List (Text × LauncherPreference)

pub record LauncherPreferences : Type 0 where
  pub version : ℕ
  pub items : Items

pub data PreferencesError : Type 0 where
  io json invalid_id invalid_alias : PreferencesError
  unsupported_version : ℕ → PreferencesError

-- `LauncherPreference::default`
abbrev pub untouched : LauncherPreference
untouched = record { alias = none; favorite = false; frequency = 0 }

-- `LauncherPreferences::default`
abbrev pub no_preferences : LauncherPreferences
no_preferences = record { version = current_version; items = [] }

-- `BTreeMap::get`, `insert` and `remove`.
unfoldable pub lookup : Text → Items → Option LauncherPreference
lookup id [] = none
lookup id ((key, value) ∷ items) =
    let rest = lookup id items in if text_eq key id then some value else rest

abbrev pub placed :
    Ordering → Text → LauncherPreference → Text → LauncherPreference → Items → Items → Items
placed Ordering.lt id preference key value items rest = (id, preference) ∷ (key, value) ∷ items
placed Ordering.eq id preference key value items rest = (id, preference) ∷ items
placed Ordering.gt id preference key value items rest = (key, value) ∷ rest

unfoldable pub insert : Text → LauncherPreference → Items → Items
insert id preference [] = (id, preference) ∷ []
insert id preference ((key, value) ∷ items) =
    let rest = insert id preference items in
    placed (compare_text id key) id preference key value items rest

unfoldable pub delete : Text → Items → Items
delete id [] = []
delete id ((key, value) ∷ items) =
    let rest = delete id items in if text_eq key id then rest else (key, value) ∷ rest

-- `char::is_control`
abbrev pub is_control : ℕ → Bool
is_control c = ltb c 0x20 || (leb 0x7F c && leb c 0x9F)

any_control : Text → Bool
any_control [] = false
any_control (c ∷ s) = is_control c || any_control s

unfoldable pub valid_id : Text → Bool
unfolding any_control
valid_id id = not (is_empty id || (ltb 512 (length (as_bytes id)) || any_control id))

abbrev pub validate_id : Text → Result PreferencesError (Unit {0})
validate_id id = guard (valid_id id) invalid_id

-- `LauncherPreferences::get`
pub get : Text → LauncherPreferences → Option LauncherPreference
unfolding lookup
get id self = lookup id self.items

abbrev pub or_default : Option LauncherPreference → LauncherPreference
or_default none = untouched
or_default (some preference) = preference

abbrev pub is_untouched : Option LauncherPreference → Bool
is_untouched none = false
is_untouched (some preference) =
    (elim preference.alias [ none ↦ true | some alias ↦ false ])
    && not preference.favorite
    && (preference.frequency == 0)

unfoldable pub prune : Text → Items → Items
unfolding lookup delete
prune id items = if is_untouched (lookup id items) then delete id items else items

-- `alias.map(str::trim).filter(|alias| !alias.is_empty())`
unfoldable pub normalized : Option Text → Option Text
normalized none = none
normalized (some alias) = if is_empty (trim alias) then none else some (trim alias)

abbrev pub is_long : Option Text → Bool
is_long none = false
is_long (some alias) = ltb max_alias_chars (length alias)

unfoldable pub set_alias :
    Text
    → Option Text
    → LauncherPreferences
    → LauncherPreferences × Result PreferencesError (Unit {0})
unfolding normalized insert prune lookup valid_id
set_alias id alias self =
    let chosen = normalized alias in
    let preference = record (or_default (lookup id self.items)) { alias = chosen } in
    if not (valid_id id)
    then (self, err invalid_id)
    else if is_long chosen
    then (self, err invalid_alias)
    else (record self { items = prune id (insert id preference self.items) }, ok tt)

unfoldable pub toggle_favorite :
    Text → LauncherPreferences → LauncherPreferences × Result PreferencesError Bool
unfolding insert lookup valid_id
toggle_favorite id self =
    let old = or_default (lookup id self.items) in
    if not (valid_id id) then (self, err invalid_id) else (
      record self { items = insert id (record old { favorite = not old.favorite }) self.items },
      ok (not old.favorite),
    )

-- `u32::saturating_add(1)`
abbrev pub saturating_next : ℕ → ℕ
saturating_next n = if ltb n (2 ^ 32 - 1) then n + 1 else 2 ^ 32 - 1

unfoldable pub record_invocation :
    Text → LauncherPreferences → LauncherPreferences × Result PreferencesError ℕ
unfolding insert lookup valid_id
record_invocation id self =
    let old = or_default (lookup id self.items) in
    if not (valid_id id) then (self, err invalid_id) else (
      record self {
        items = insert id (record old { frequency = saturating_next old.frequency }) self.items;
      },
      ok (saturating_next old.frequency),
    )

unfoldable pub valid_alias : Option Text → Bool
valid_alias none = true
valid_alias (some alias) =
    not (not (text_eq (trim alias) alias) || (is_empty alias || ltb max_alias_chars (length alias)))

unfoldable pub validate_items : Items → Result PreferencesError (Unit {0})
unfolding valid_id valid_alias
validate_items [] = ok tt
validate_items ((id, preference) ∷ items) =
    let rest = validate_items items in
    (do validate_id id; guard (valid_alias preference.alias) invalid_alias; rest)

unfoldable pub validate : LauncherPreferences → Result PreferencesError (Unit {0})
unfolding validate_items
validate self = do
  guard (self.version == current_version) (unsupported_version self.version)
  validate_items self.items

pub record Json : Type 0 where
  pub to_vec_pretty : LauncherPreferences → Option Bytes
  pub from_slice : Bytes → Option LauncherPreferences

-- What reading the file answers: its bytes, that it is not there, or a failure.
pub data Read : Type 0 where
  bytes : Bytes → Read
  not_found failed : Read

-- The file and the temporary file next to it; and what the calls of `save` answer.
pub record Disk : Type 0 where
  pub target : Option Bytes
  pub temporary : Option Bytes

pub record Io : Type 0 where
  pub create_dir_all : Bool
  pub write : Bool
  pub written : Option Bytes
  pub rename : Bool
  pub remove_file : Bool

module _ (format : Json) where
  open format use {to_vec_pretty, from_slice}

  unfoldable pub load : Read → Result PreferencesError LauncherPreferences
  unfolding validate
  load not_found = ok no_preferences
  load failed = err io
  load (bytes content) = do
    preferences ← ok_or (from_slice content) json
    validate preferences
    ok preferences

  -- The temporary file is there with its content: the rename.
  unfoldable pub publish : Io → Bytes → Disk → Disk × Result PreferencesError (Unit {0})
  publish env content disk =
      if env.rename
      then (record { target = some content; temporary = none }, ok tt)
      else (record disk { temporary = if env.remove_file then none else some content }, err io)

  -- A write that fails leaves something in the temporary file, or nothing.
  unfoldable pub write_file : Io → Option Bytes → Disk → Disk × Result PreferencesError (Unit {0})
  unfolding publish
  write_file env none disk = (disk, err json)
  write_file env (some content) disk =
      if env.write
      then publish env content disk
      else (record disk { temporary = env.written }, err io)

  unfoldable pub save_checked :
      Result PreferencesError (Unit {0})
      → Io
      → LauncherPreferences
      → Disk
      → Disk × Result PreferencesError (Unit {0})
  unfolding write_file
  save_checked (err e) env self disk = (disk, err e)
  save_checked (ok t) env self disk =
      if env.create_dir_all then write_file env (to_vec_pretty self) disk else (disk, err io)

  unfoldable pub save : Io → LauncherPreferences → Disk → Disk × Result PreferencesError (Unit {0})
  unfolding save_checked validate
  save env self disk = save_checked (validate self) env self disk
