-- ===== src/Extensions/View.antt =====
-- crates/extensions/src/view.rs: the views that an extension declares, their validation, and the navigation stack,
-- with its end first. JSON and the tests of floating-point numbers are parameters.
pub mod Items
pub mod Safety
pub mod Stack
mod Examples
use superspace.Base.{
  ℕ, ◌*◌, Bool, true, false, not, ◌&&◌, ◌||◌, Option, none, some, List, [], ◌∷◌, length, map, leb,
  ltb, if◌then◌else◌,
}
use superspace.Base.Bytes.{Bytes}
use superspace.Base.Result.{Result, ok, err, ◌>>=◌, ◌>>◌, guard, ok_or}
use superspace.Base.Text.{Text, as_bytes, trim, is_empty}
use superspace.Extensions.Package.{valid_identifier}
use superspace.Extensions.Policy.{names}

abbrev pub max_items : ℕ
max_items = 10000

abbrev pub max_text_bytes : ℕ
max_text_bytes = 4 * 1024 * 1024

abbrev pub max_navigation_depth : ℕ
max_navigation_depth = 64

pub record Action : Type 0 where
  pub id : Text
  pub title : Text
  pub shortcut : Option Text

pub record ListItem : Type 0 where
  pub id : Text
  pub title : Text
  pub subtitle : Option Text
  pub icon : Option Text
  pub actions : List Action

pub record GridItem : Type 0 where
  pub id : Text
  pub title : Text
  pub image : Option Text
  pub actions : List Action

pub record Detail : Type 0 where
  pub label : Text
  pub value : Text

pub data FormFieldKind : Type 0 where
  text text_area checkbox password : FormFieldKind
  select : List Text → FormFieldKind

pub record FormField : Type 0 where
  pub id : Text
  pub label : Text
  pub kind : FormFieldKind
  pub required : Bool

pub data View (Float : Type 0) : Type 0 where
  list : List ListItem → View Float
  grid : List GridItem → View Float
  detail : Text → List Detail → List Action → View Float
  markdown : Text → View Float
  form : List FormField → Action → View Float
  menu : List Action → View Float
  progress : Text → Option Float → Bool → View Float

pub data ViewError : Type 0 where
  invalid too_large duplicate too_deep : ViewError

unfoldable pub ensure_count : ℕ → Result ViewError (Unit {0})
ensure_count count = guard (not (ltb max_items count)) too_large

-- The identifier is tested as that of a package is.
unfoldable pub validate_identity : Text → Text → Result ViewError (Unit {0})
validate_identity id title = guard (valid_identifier id && not (is_empty (trim title))) invalid

unfoldable pub unique_from : List Text → List Text → Bool
unique_from seen [] = true
unique_from seen (value ∷ values) = not (names seen value) && unique_from (value ∷ seen) values

unfoldable pub unique : List Text → Result ViewError (Unit {0})
unfolding unique_from
unique values = guard (unique_from [] values) duplicate

-- A loop that validates each element, and stops at the first error.
abbrev pub validate_each :
    {A : Type 0} → (A → Result ViewError (Unit {0})) → List A → Result ViewError (Unit {0})
validate_each check [] = ok tt
validate_each check (x ∷ xs) = let rest = validate_each check xs in check x >> rest

unfoldable pub validate_actions : List Action → Result ViewError (Unit {0})
unfolding ensure_count unique validate_identity
validate_actions actions = do
  ensure_count (length actions)
  unique (map (λ a. a.id) actions)
  validate_each (λ a. validate_identity a.id a.title) actions

unfoldable pub validate_list_item : ListItem → Result ViewError (Unit {0})
unfolding validate_identity validate_actions
validate_list_item item = do validate_identity item.id item.title; validate_actions item.actions

unfoldable pub validate_grid_item : GridItem → Result ViewError (Unit {0})
unfolding validate_identity validate_actions
validate_grid_item item = do validate_identity item.id item.title; validate_actions item.actions

unfoldable pub is_bad_detail : Detail → Bool
is_bad_detail row = is_empty (trim row.label) || ltb max_text_bytes (length (as_bytes row.value))

unfoldable pub any_bad : List Detail → Bool
unfolding is_bad_detail
any_bad [] = false
any_bad (row ∷ rows) = is_bad_detail row || any_bad rows

unfoldable pub is_bad_select : FormFieldKind → Bool
is_bad_select (select options) = is_empty options || ltb max_items (length options)
is_bad_select kind = false

unfoldable pub validate_field : FormField → Result ViewError (Unit {0})
unfolding validate_identity is_bad_select
validate_field field = do
  validate_identity field.id field.label
  guard (not (is_bad_select field.kind)) invalid

-- JSON, and whether a number is finite and from 0 to 1.
pub record Host (Float : Type 0) : Type 0 where
  pub to_vec : View Float → Option Bytes
  pub is_finite : Float → Bool
  pub in_unit_range : Float → Bool

module _ {Float : Type 0} (host : Host Float) where
  open host use {to_vec, is_finite, in_unit_range}

  unfoldable pub is_bad_fraction : Option Float → Bool
  is_bad_fraction none = false
  is_bad_fraction (some value) = not (is_finite value) || not (in_unit_range value)

  -- The cases of `validate`.
  unfoldable pub validate_view : View Float → Result ViewError (Unit {0})
  unfolding ensure_count unique validate_list_item validate_grid_item any_bad validate_actions
      validate_field is_bad_fraction
  validate_view (list items) = do
    ensure_count (length items)
    unique (map (λ i. i.id) items)
    validate_each validate_list_item items
  validate_view (grid items) = do
    ensure_count (length items)
    unique (map (λ i. i.id) items)
    validate_each validate_grid_item items
  validate_view (detail body metadata actions) = do
    ensure_count (length metadata)
    guard (not (ltb max_text_bytes (length (as_bytes body)) || any_bad metadata)) invalid
    validate_actions actions
  validate_view (markdown body) =
      guard (not (ltb max_text_bytes (length (as_bytes body)))) too_large
  validate_view (form fields submit) = do
    ensure_count (length fields)
    unique (map (λ f. f.id) fields)
    validate_each validate_field fields
    validate_actions (submit ∷ [])
  validate_view (menu actions) = validate_actions actions
  validate_view (progress title fraction cancellable) =
      guard (not (is_empty (trim title) || is_bad_fraction fraction)) invalid

  unfoldable pub validate : View Float → Result ViewError (Unit {0})
  unfolding validate_view
  validate view = do
    encoded ← ok_or (to_vec view) invalid
    guard (not (ltb max_text_bytes (length encoded))) too_large
    validate_view view

  -- `Navigation`, its stack with the visible view first.
  -- What `push` does after the validation.
  unfoldable pub push_checked :
      Result ViewError (Unit {0})
      → View Float
      → List (View Float)
      → List (View Float) × Result ViewError (Unit {0})
  push_checked (err e) view stack = (stack, err e)
  push_checked (ok t) view stack =
      if leb max_navigation_depth (length stack)
      then (stack, err too_deep)
      else (view ∷ stack, ok tt)

  unfoldable pub push :
      View Float → List (View Float) → List (View Float) × Result ViewError (Unit {0})
  unfolding validate push_checked
  push view stack = push_checked (validate view) view stack

  unfoldable pub pop : List (View Float) → List (View Float) × Option (View Float)
  pop [] = ([], none)
  pop (view ∷ []) = (view ∷ [], none)
  pop (view ∷ under ∷ stack) = (under ∷ stack, some view)

  unfoldable pub current : List (View Float) → Option (View Float)
  current [] = none
  current (view ∷ stack) = some view

  unfoldable pub depth : List (View Float) → ℕ
  depth stack = length stack
