-- ===== src/Core/Preferences/Validity.antt =====
-- The preferences of crates/core/src/preferences.rs stay valid, so that they can always be saved.
use superspace.Base.{
  ◌≡◌, refl, inl, inr, true, false, Bool-cases, Option, none, some, List, [], ◌∷◌, All, length, ltb,
}
use Prim.Native.Nat.{Ordering}
use superspace.Base.Result.{ok}
use superspace.Base.Text.{Text, text_eq, ≡→text_eq, trim, is_empty, compare_text}
use superspace.Base.Trim.{trim-trim}
use superspace.Core.Preferences.{
  LauncherPreference, LauncherPreferences, Items, current_version, max_alias_chars, no_preferences,
  lookup, placed, insert, delete, valid_id, or_default, is_untouched, prune, normalized, is_long,
  set_alias, toggle_favorite, record_invocation, valid_alias, validate_items, validate,
}

abbrev pub IsEntry : Text × LauncherPreference → Type 0
IsEntry (id, preference) = (valid_id id ≡ true) × (valid_alias preference.alias ≡ true)

pub record IsValid (self : LauncherPreferences) : Type 0 where
  pub versioned : self.version ≡ current_version
  pub entries : All IsEntry self.items

-- What is requested of the preferences.
pub data Request : Type 0 where
  aliasing : Text → Option Text → Request
  favoring : Text → Request
  invoking : Text → Request

abbrev pub step : Request → LauncherPreferences → LauncherPreferences
step (aliasing id alias) self = (set_alias id alias self).0
step (favoring id) self = (toggle_favorite id self).0
step (invoking id) self = (record_invocation id self).0

unfoldable pub run : List Request → LauncherPreferences → LauncherPreferences
run [] self = self
run (request ∷ requests) self = run requests (step request self)

placed-All :
    (o : Ordering) (id key : Text) (preference value : LauncherPreference) (items rest : Items)
    → IsEntry (id, preference)
    → All IsEntry ((key, value) ∷ items)
    → All IsEntry rest
    → All IsEntry (placed o id preference key value items rest)
placed-All Ordering.lt id key preference value items rest p h r = (p, h)
placed-All Ordering.eq id key preference value items rest p h r = (p, h.1)
placed-All Ordering.gt id key preference value items rest p h r = (h.0, r)

insert-All :
    (id : Text) (preference : LauncherPreference) (items : Items)
    → IsEntry (id, preference)
    → All IsEntry items
    → All IsEntry (insert id preference items)
unfolding insert
insert-All id preference [] p h = (p, tt)
insert-All id preference ((key, value) ∷ items) p h =
    placed-All (compare_text id key) id key preference value items (insert id preference items) p h
      (insert-All id preference items p h.1)

delete-All : (id : Text) (items : Items) → All IsEntry items → All IsEntry (delete id items)
unfolding delete
delete-All id [] h = tt
delete-All id ((key, value) ∷ items) h = elim (Bool-cases (text_eq key id)) [
  | inl e ↦ rw e (delete-All id items h.1)
  | inr e ↦ rw e (h.0, delete-All id items h.1)
]

prune-All : (id : Text) (items : Items) → All IsEntry items → All IsEntry (prune id items)
unfolding prune
prune-All id items h = elim (Bool-cases (is_untouched (lookup id items))) [
  | inl e ↦ rw e (delete-All id items h)
  | inr e ↦ rw e h
]

-- What is looked up has a valid alias.
lookup-alias :
    (id : Text) (items : Items)
    → All IsEntry items
    → valid_alias (or_default (lookup id items)).alias ≡ true
unfolding lookup valid_alias
lookup-alias id [] h = refl
lookup-alias id ((key, value) ∷ items) h = elim (Bool-cases (text_eq key id)) [
  | inl e ↦ rw e h.0.1
  | inr e ↦ rw e (lookup-alias id items h.1)
]

-- An alias that was normalized and is not long is valid.
normalized-alias :
    (alias : Option Text)
    → is_long (normalized alias) ≡ false
    → valid_alias (normalized alias) ≡ true
unfolding normalized valid_alias
normalized-alias none h = refl
normalized-alias (some alias) h = elim (Bool-cases (is_empty (trim alias))) [
  | inl e ↦ rw e refl
  | inr e ↦
      let short : ltb max_alias_chars (length (trim alias)) ≡ false = rw e at h in
      rw (e, ≡→text_eq (trim (trim alias)) (trim alias) (trim-trim alias), e, short) refl
]

set_alias-IsValid :
    (id : Text) (alias : Option Text) (self : LauncherPreferences)
    → IsValid self
    → IsValid (set_alias id alias self).0
unfolding set_alias
set_alias-IsValid id alias self v = elim (Bool-cases (valid_id id)) [
  | inr bad ↦ rw bad v
  | inl good ↦ elim (Bool-cases (is_long (normalized alias))) [
    | inl long ↦ rw (good, long) v
    | inr short ↦
        rw (good, short)
          (record {
            versioned = v.versioned;
            entries =
                prune-All id _
                  (insert-All id _ self.items (good, normalized-alias alias short) v.entries);
          })
  ]
]

toggle_favorite-IsValid :
    (id : Text) (self : LauncherPreferences) → IsValid self → IsValid (toggle_favorite id self).0
unfolding toggle_favorite
toggle_favorite-IsValid id self v = elim (Bool-cases (valid_id id)) [
  | inr bad ↦ rw bad v
  | inl good ↦ rw good (record {
    versioned = v.versioned;
    entries = insert-All id _ self.items (good, lookup-alias id self.items v.entries) v.entries;
  })
]

record_invocation-IsValid :
    (id : Text) (self : LauncherPreferences) → IsValid self → IsValid (record_invocation id self).0
unfolding record_invocation
record_invocation-IsValid id self v = elim (Bool-cases (valid_id id)) [
  | inr bad ↦ rw bad v
  | inl good ↦ rw good (record {
    versioned = v.versioned;
    entries = insert-All id _ self.items (good, lookup-alias id self.items v.entries) v.entries;
  })
]

step-IsValid :
    (request : Request) (self : LauncherPreferences) → IsValid self → IsValid (step request self)
step-IsValid (aliasing id alias) self v = set_alias-IsValid id alias self v
step-IsValid (favoring id) self v = toggle_favorite-IsValid id self v
step-IsValid (invoking id) self v = record_invocation-IsValid id self v

pub run-IsValid :
    (requests : List Request) (self : LauncherPreferences)
    → IsValid self
    → IsValid (run requests self)
unfolding run
run-IsValid [] self v = v
run-IsValid (request ∷ requests) self v =
    run-IsValid requests (step request self) (step-IsValid request self v)

validate_items-All : (items : Items) → All IsEntry items → validate_items items ≡ ok tt
unfolding validate_items
validate_items-All [] h = refl
validate_items-All ((id, preference) ∷ items) h =
    rw (h.0.0, h.0.1, validate_items-All items h.1) refl

pub validate-IsValid : (self : LauncherPreferences) → IsValid self → validate self ≡ ok tt
unfolding validate
validate-IsValid self v = rw (v.versioned, validate_items-All self.items v.entries) refl

-- Whatever is requested, accepted or not, the preferences that start empty pass the validation that saving and
-- loading require.
pub validate-run : (requests : List Request) → validate (run requests no_preferences) ≡ ok tt
validate-run requests =
    validate-IsValid (run requests no_preferences)
      (run-IsValid requests no_preferences (record { versioned = refl; entries = tt }))
