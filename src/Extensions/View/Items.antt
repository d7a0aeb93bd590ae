-- ===== src/Extensions/View/Items.antt =====
-- What the valid parts of a view are like: its items, actions, fields and rows of crates/extensions/src/view.rs is like.
use superspace.Base.{
  ℕ, ◌≤◌, ◌≡◌, ◌≢◌, refl, Bool, true, false, not, ◌&&◌, ◌||◌, both_left, both_right, List, [], ◌∷◌,
  length, map, ltb, All, arith,
}
use superspace.Base.Result.{Result, ok, guard, bind-ok, guard-ok}
use superspace.Base.Text.{Text, as_bytes, trim, is_empty, text_eq, ≡→text_eq}
use superspace.Extensions.Package.{valid_identifier}
use superspace.Extensions.Policy.{names}
use superspace.Extensions.View.{
  Action, ListItem, GridItem, Detail, FormField, FormFieldKind, text, text_area, checkbox, password,
  select, ViewError, invalid, too_large, duplicate, max_items, max_text_bytes, ensure_count,
  validate_identity, unique, unique_from, validate_each, validate_actions, validate_list_item,
  validate_grid_item, is_bad_detail, any_bad, is_bad_select, validate_field,
}

-- No text of the list occurs twice.
abbrev pub IsApart : List Text → Type 0
IsApart [] = Unit
IsApart (value ∷ values) = All (λ other. value ≢ other) values × IsApart values

pub record IsIdentified (id title : Text) : Type 0 where
  pub identifier : valid_identifier id ≡ true
  pub titled : is_empty (trim title) ≡ false

pub record IsActions (actions : List Action) : Type 0 where
  pub counted : length actions ≤ max_items
  pub apart : IsApart (map (λ a. a.id) actions)
  pub each : All (λ a. IsIdentified a.id a.title) actions

abbrev pub IsListItem : ListItem → Type 0
IsListItem item = IsIdentified item.id item.title × IsActions item.actions

abbrev pub IsGridItem : GridItem → Type 0
IsGridItem item = IsIdentified item.id item.title × IsActions item.actions

abbrev pub IsDetail : Detail → Type 0
IsDetail row = (is_empty (trim row.label) ≡ false) × (length (as_bytes row.value) ≤ max_text_bytes)

-- A choice offers something.
abbrev pub IsChoice : FormFieldKind → Type 0
IsChoice (select options) = (options ≢ []) × (length options ≤ max_items)
IsChoice kind = Unit

abbrev pub IsField : FormField → Type 0
IsField field = IsIdentified field.id field.label × IsChoice field.kind

-- What is tested to be not too large.
pub count-ok : (n maximum : ℕ) (e : ViewError) → guard (not (ltb maximum n)) e ≡ ok tt → n ≤ maximum
count-ok n maximum e h = ground (arith, guard-ok (not (ltb maximum n)) e tt h)

pub flipped_true : (b : Bool) → not b ≡ true → b ≡ false
flipped_true true h = cc
flipped_true false h = refl

pub flipped_false : (b : Bool) → not b ≡ false → b ≡ true
flipped_false true h = refl
flipped_false false h = cc

pub not_above : (n maximum : ℕ) → ltb maximum n ≡ false → n ≤ maximum
not_above n maximum h = ground arith

pub or_left : (a b : Bool) → (a || b) ≡ false → a ≡ false
or_left true b h = cc
or_left false b h = refl

pub or_right : (a b : Bool) → (a || b) ≡ false → b ≡ false
or_right true b h = cc
or_right false b h = h

pub validate_each-All {κ} :
    {A : Type 0} (check : A → Result ViewError (Unit {0})) (P : A → Type κ)
    → ((x : A) → check x ≡ ok tt → P x)
    → (xs : List A) → validate_each check xs ≡ ok tt
    → All P xs
validate_each-All check P sound [] h = tt
validate_each-All check P sound (x ∷ xs) h =
    let a = bind-ok (check x) _ tt h in
    (sound x a.first, validate_each-All check P sound xs a.then_ok)

names-other :
    (seen : List Text) (value other : Text) → names (value ∷ seen) other ≡ false → value ≢ other
unfolding names
names-other seen value other h =
    λ e. cc (or_left (text_eq value other) _ h, ≡→text_eq value other e)

names-rest :
    (seen : List Text) (value other : Text)
    → names (value ∷ seen) other ≡ false
    → names seen other ≡ false
unfolding names
names-rest seen value other h = or_right (text_eq value other) _ h

All-weaken {κ ρ} :
    {A : Type 0} (P : A → Type κ) (Q : A → Type ρ) (xs : List A)
    → ((x : A) → P x → Q x)
    → All P xs
    → All Q xs
All-weaken P Q [] f h = tt
All-weaken P Q (x ∷ xs) f h = (f x h.0, All-weaken P Q xs f h.1)

unique_from-fresh :
    (seen values : List Text)
    → unique_from seen values ≡ true
    → All (λ v. names seen v ≡ false) values
unfolding unique_from
unique_from-fresh seen [] h = tt
unique_from-fresh seen (v ∷ vs) h = (
  flipped_true (names seen v) (both_left _ _ h),
  All-weaken (λ w. names (v ∷ seen) w ≡ false) (λ w. names seen w ≡ false) vs (names-rest seen v)
      (unique_from-fresh (v ∷ seen) vs (both_right (not (names seen v)) _ h)),
)

unique_from-IsApart : (seen values : List Text) → unique_from seen values ≡ true → IsApart values
unfolding unique_from
unique_from-IsApart seen [] h = tt
unique_from-IsApart seen (v ∷ vs) h =
    let rest = both_right (not (names seen v)) _ h in
    (
      All-weaken (λ w. names (v ∷ seen) w ≡ false) (λ w. v ≢ w) vs (names-other seen v)
          (unique_from-fresh (v ∷ seen) vs rest),
      unique_from-IsApart (v ∷ seen) vs rest,
    )

pub unique-IsApart : (values : List Text) → unique values ≡ ok tt → IsApart values
unfolding unique
unique-IsApart values h = unique_from-IsApart [] values (guard-ok _ duplicate tt h)

validate_identity-IsIdentified :
    (id title : Text) → validate_identity id title ≡ ok tt → IsIdentified id title
unfolding validate_identity
validate_identity-IsIdentified id title h =
    let b = guard-ok (valid_identifier id && not (is_empty (trim title))) invalid tt h in
    record {
      identifier = both_left _ _ b;
      titled = flipped_true (is_empty (trim title)) (both_right (valid_identifier id) _ b);
    }

pub validate_actions-IsActions :
    (actions : List Action) → validate_actions actions ≡ ok tt → IsActions actions
unfolding validate_actions ensure_count
validate_actions-IsActions actions h =
    let a = bind-ok (ensure_count (length actions)) _ tt h in
    let b = bind-ok (unique (map (λ a. a.id) actions)) _ tt a.then_ok in
    record {
      counted = count-ok (length actions) max_items too_large a.first;
      apart = unique-IsApart (map (λ a. a.id) actions) b.first;
      each =
          validate_each-All (λ a. validate_identity a.id a.title) (λ a. IsIdentified a.id a.title)
            (λ a. validate_identity-IsIdentified a.id a.title) actions b.then_ok;
    }

pub validate_list_item-IsListItem :
    (item : ListItem) → validate_list_item item ≡ ok tt → IsListItem item
unfolding validate_list_item
validate_list_item-IsListItem item h =
    let a = bind-ok (validate_identity item.id item.title) _ tt h in
    (
      validate_identity-IsIdentified item.id item.title a.first,
      validate_actions-IsActions item.actions a.then_ok,
    )

pub validate_grid_item-IsGridItem :
    (item : GridItem) → validate_grid_item item ≡ ok tt → IsGridItem item
unfolding validate_grid_item
validate_grid_item-IsGridItem item h =
    let a = bind-ok (validate_identity item.id item.title) _ tt h in
    (
      validate_identity-IsIdentified item.id item.title a.first,
      validate_actions-IsActions item.actions a.then_ok,
    )

pub any_bad-All : (rows : List Detail) → any_bad rows ≡ false → All IsDetail rows
unfolding any_bad is_bad_detail
any_bad-All [] h = tt
any_bad-All (row ∷ rows) h =
    let bad = or_left (is_bad_detail row) _ h in
    let large = or_right (is_empty (trim row.label)) _ bad in
    (
      (
        or_left (is_empty (trim row.label)) _ bad,
        not_above (length (as_bytes row.value)) max_text_bytes large,
      ),
      any_bad-All rows (or_right (is_bad_detail row) _ h),
    )

is_bad_select-IsChoice : (kind : FormFieldKind) → is_bad_select kind ≡ false → IsChoice kind
unfolding is_bad_select
is_bad_select-IsChoice text h = tt
is_bad_select-IsChoice text_area h = tt
is_bad_select-IsChoice checkbox h = tt
is_bad_select-IsChoice password h = tt
is_bad_select-IsChoice (select []) h = cc
is_bad_select-IsChoice (select (o ∷ os)) h = (λ e. cc, not_above (length (o ∷ os)) max_items h)

pub validate_field-IsField : (field : FormField) → validate_field field ≡ ok tt → IsField field
unfolding validate_field
validate_field-IsField field h =
    let a = bind-ok (validate_identity field.id field.label) _ tt h in
    (
      validate_identity-IsIdentified field.id field.label a.first,
      is_bad_select-IsChoice field.kind (flipped_true _ (guard-ok _ invalid tt a.then_ok)),
    )
