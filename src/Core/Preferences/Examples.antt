-- ===== src/Core/Preferences/Examples.antt =====
-- The preferences of crates/core/src/preferences.rs on examples.
use superspace.Base.{ℕ, ◌≡◌, refl, ap, sym, Bool, true, false, Option, none, some, List, [], ◌∷◌}
use superspace.Base.Bytes.{Bytes}
use superspace.Base.Result.{ok}
use superspace.Base.Text.{Text}
use superspace.Core.Preferences.{
  Items, LauncherPreferences, untouched, no_preferences, validate, Json, Disk, Io, save,
}
use superspace.Core.Preferences.Validity.{Request, aliasing, favoring, invoking, run, validate-run}
use superspace.Core.Preferences.Saving.{ReadsBack, Outcome, save-load}

abbrev editor : Text
editor = b'e' ∷ b'd' ∷ []

abbrev browser : Text
browser = b'b' ∷ b'r' ∷ []

abbrev requests : List Request
requests =
    invoking editor
    ∷ aliasing browser (some (b' ' ∷ b'w' ∷ b' ' ∷ []))
    ∷ favoring []
    ∷ favoring browser
    ∷ aliasing browser (some (b' ' ∷ []))
    ∷ favoring browser
    ∷ []

validate-run_example : validate (run requests no_preferences) ≡ ok tt
validate-run_example = validate-run requests

-- The items are kept in the order of their identifiers.
run-requests : run requests no_preferences ≡ record no_preferences {
  items = (browser, untouched) ∷ (editor, record untouched { frequency = 1 }) ∷ [];
}
unfolding run superspace.Core.Preferences.set_alias superspace.Core.Preferences.toggle_favorite
    superspace.Core.Preferences.record_invocation superspace.Core.Preferences.insert
    superspace.Core.Preferences.lookup superspace.Core.Preferences.prune
    superspace.Core.Preferences.valid_id superspace.Core.Preferences.normalized
    superspace.Base.Text.trim superspace.Base.Text.as_bytes
run-requests = refl

-- JSON of the preferences for one item that was invoked.
abbrev encode_item : ℕ → Text → Option Text → Bool → ℕ → Option Bytes
encode_item version id (some alias) favorite frequency = none
encode_item version id none true frequency = none
encode_item version id none false frequency = some (version ∷ frequency ∷ id)

abbrev encode_items : ℕ → Items → Option Bytes
encode_items version [] = none
encode_items version (item ∷ other ∷ items) = none
encode_items version ((id, preference) ∷ []) =
    encode_item version id preference.alias preference.favorite preference.frequency

abbrev decode : Bytes → Option LauncherPreferences
decode [] = none
decode (version ∷ []) = none
decode (version ∷ frequency ∷ id) =
    some
      (record { version = version; items = (id, record untouched { frequency = frequency }) ∷ [] })

abbrev format : Json
format = record {
  to_vec_pretty = λ self. encode_items self.version self.items;
  from_slice = decode;
}

decode-encode_item :
    (version : ℕ) (id : Text) (alias : Option Text) (favorite : Bool) (frequency : ℕ)
    (content : Bytes)
    → encode_item version id alias favorite frequency ≡ some content
    → decode content
      ≡ some (record {
        version = version;
        items = (id, record { alias = alias; favorite = favorite; frequency = frequency }) ∷ [];
      })
decode-encode_item version id (some alias) favorite frequency content h = cc
decode-encode_item version id none true frequency content h = cc
decode-encode_item version id none false frequency content h =
    let e : version ∷ frequency ∷ id ≡ content = cc in ap decode (sym e)

decode-encode_items :
    (version : ℕ) (items : Items) (content : Bytes)
    → encode_items version items ≡ some content
    → decode content ≡ some (record { version = version; items = items })
decode-encode_items version [] content h = cc
decode-encode_items version (item ∷ other ∷ items) content h = cc
decode-encode_items version ((id, preference) ∷ []) content h =
    decode-encode_item version id preference.alias preference.favorite preference.frequency content
      h

format-ReadsBack : ReadsBack format
format-ReadsBack = record {
  parses = λ self content h. decode-encode_items self.version self.items content h;
}

abbrev invoked : LauncherPreferences
invoked = record no_preferences { items = (editor, record untouched { frequency = 1 }) ∷ [] }

abbrev answering : Bool → Io
answering renamed = record {
  create_dir_all = true;
  write = true;
  written = none;
  rename = renamed;
  remove_file = true;
}

abbrev blank : Disk
blank = record { target = none; temporary = none }

save-load_example : Outcome format invoked blank (save format (answering true) invoked blank)
save-load_example = save-load format format-ReadsBack (answering true) invoked blank

save-invoked :
    save format (answering true) invoked blank
    ≡ (record blank { target = some (1 ∷ 1 ∷ editor) }, ok tt)
unfolding save superspace.Core.Preferences.save_checked superspace.Core.Preferences.write_file
    superspace.Core.Preferences.publish validate superspace.Core.Preferences.validate_items
    superspace.Core.Preferences.valid_id superspace.Core.Preferences.valid_alias
    superspace.Base.Text.as_bytes
save-invoked = refl
