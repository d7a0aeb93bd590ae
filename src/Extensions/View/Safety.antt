-- ===== src/Extensions/View/Safety.antt =====
-- What a valid view of crates/extensions/src/view.rs is like.
use superspace.Base.{
  ◌≤◌, ◌≡◌, true, false, not, ◌||◌, Option, none, some, [], ◌∷◌, length, map, ltb, All,
}
use superspace.Base.Bytes.{Bytes}
use superspace.Base.Result.{ok, guard, ok_or, bind-ok, guard-ok, ok_or-ok}
use superspace.Base.Text.{as_bytes, trim, is_empty}
use superspace.Extensions.View.Items.{
  IsApart, IsIdentified, IsActions, IsListItem, IsGridItem, IsDetail, IsField, count-ok,
  flipped_true, flipped_false, not_above, or_left, or_right, validate_each-All, unique-IsApart,
  validate_actions-IsActions, validate_list_item-IsListItem, validate_grid_item-IsGridItem,
  any_bad-All, validate_field-IsField,
}
use superspace.Extensions.View.{
  View, list, grid, detail, markdown, form, menu, progress, invalid, too_large, max_items,
  max_text_bytes, ensure_count, unique, validate_each, validate_list_item, validate_grid_item,
  any_bad, validate_field, Host, is_bad_fraction, validate_view, validate,
}

module _ {Float : Type 0} (host : Host Float) where
  abbrev pub IsFraction : Option Float → Type 0
  IsFraction none = Unit
  IsFraction (some value) = (host.is_finite value ≡ true) × (host.in_unit_range value ≡ true)

  -- What each kind of view promises.
  abbrev pub IsSafe : View Float → Type 0
  IsSafe (list items) =
      (length items ≤ max_items) × (IsApart (map (λ i. i.id) items) × All IsListItem items)
  IsSafe (grid items) =
      (length items ≤ max_items) × (IsApart (map (λ i. i.id) items) × All IsGridItem items)
  IsSafe (detail body metadata actions) =
      ((length metadata ≤ max_items) × (length (as_bytes body) ≤ max_text_bytes))
      × (All IsDetail metadata × IsActions actions)
  IsSafe (markdown body) = length (as_bytes body) ≤ max_text_bytes
  IsSafe (form fields submit) =
      (length fields ≤ max_items)
      × (IsApart (map (λ f. f.id) fields)
          × (All IsField fields × IsIdentified submit.id submit.title))
  IsSafe (menu actions) = IsActions actions
  IsSafe (progress title fraction cancellable) =
      (is_empty (trim title) ≡ false) × IsFraction fraction

  is_bad_fraction-IsFraction :
      (fraction : Option Float) → is_bad_fraction host fraction ≡ false → IsFraction fraction
  unfolding is_bad_fraction
  is_bad_fraction-IsFraction none h = tt
  is_bad_fraction-IsFraction (some value) h = (
    flipped_false (host.is_finite value) (or_left (not (host.is_finite value)) _ h),
    flipped_false (host.in_unit_range value) (or_right (not (host.is_finite value)) _ h),
  )

  validate_view-IsSafe : (view : View Float) → validate_view host view ≡ ok tt → IsSafe view
  unfolding validate_view ensure_count
  validate_view-IsSafe (list items) h =
      let a = bind-ok (ensure_count (length items)) _ tt h in
      let b = bind-ok (unique (map (λ i. i.id) items)) _ tt a.then_ok in
      (
        count-ok (length items) max_items too_large a.first,
        (
          unique-IsApart (map (λ i. i.id) items) b.first,
          validate_each-All validate_list_item IsListItem validate_list_item-IsListItem items
              b.then_ok,
        ),
      )
  validate_view-IsSafe (grid items) h =
      let a = bind-ok (ensure_count (length items)) _ tt h in
      let b = bind-ok (unique (map (λ i. i.id) items)) _ tt a.then_ok in
      (
        count-ok (length items) max_items too_large a.first,
        (
          unique-IsApart (map (λ i. i.id) items) b.first,
          validate_each-All validate_grid_item IsGridItem validate_grid_item-IsGridItem items
              b.then_ok,
        ),
      )
  validate_view-IsSafe (detail body metadata actions) h =
      let a = bind-ok (ensure_count (length metadata)) _ tt h in
      let b =
        bind-ok
          (guard (not (ltb max_text_bytes (length (as_bytes body)) || any_bad metadata)) invalid) _
          tt a.then_ok in
      let fine = flipped_true _ (guard-ok _ invalid b.value b.first) in
      (
        (
          count-ok (length metadata) max_items too_large a.first,
          not_above (length (as_bytes body)) max_text_bytes (or_left _ _ fine),
        ),
        (
          any_bad-All metadata (or_right (ltb max_text_bytes (length (as_bytes body))) _ fine),
          validate_actions-IsActions actions b.then_ok,
        ),
      )
  validate_view-IsSafe (markdown body) h =
      count-ok (length (as_bytes body)) max_text_bytes too_large h
  validate_view-IsSafe (form fields submit) h =
      let a = bind-ok (ensure_count (length fields)) _ tt h in
      let b = bind-ok (unique (map (λ f. f.id) fields)) _ tt a.then_ok in
      let c = bind-ok (validate_each validate_field fields) _ tt b.then_ok in
      let submitted = validate_actions-IsActions (submit ∷ []) c.then_ok in
      (
        count-ok (length fields) max_items too_large a.first,
        (
          unique-IsApart (map (λ f. f.id) fields) b.first,
          (
            validate_each-All validate_field IsField validate_field-IsField fields c.first,
            submitted.each.0,
          ),
        ),
      )
  validate_view-IsSafe (menu actions) h = validate_actions-IsActions actions h
  validate_view-IsSafe (progress title fraction cancellable) h =
      let fine =
        flipped_true _
          (guard-ok (not (is_empty (trim title) || is_bad_fraction host fraction)) invalid tt h) in
      (
        or_left (is_empty (trim title)) _ fine,
        is_bad_fraction-IsFraction fraction (or_right (is_empty (trim title)) _ fine),
      )

  -- A view that is accepted keeps to the schema of its kind, and its JSON is at most 4 MiB long.
  pub validate-IsSafe :
      (view : View Float)
      → validate host view ≡ ok tt
      → IsSafe view
        × ((encoded : Bytes) × ((host.to_vec view ≡ some encoded)
              × (length encoded ≤ max_text_bytes)))
  unfolding validate
  validate-IsSafe view h =
      let a = bind-ok (ok_or (host.to_vec view) invalid) _ tt h in
      let b =
        bind-ok (guard (not (ltb max_text_bytes (length a.value))) too_large) _ tt a.then_ok in
      (
        validate_view-IsSafe view b.then_ok,
        (
          a.value,
          (
            ok_or-ok (host.to_vec view) invalid a.value a.first,
            count-ok (length a.value) max_text_bytes too_large b.first,
          ),
        ),
      )
