-- ===== src/Ui/Palette/Navigation.antt =====
-- The keys of the palette of crates/ui/src/model.rs: rows wrap, and Escape leads out.
use superspace.Base.{
  ℕ, ◌+◌, ◌-◌, ◌%◌, ◌^◌, ◌<◌, ◌≡◌, refl, ap, ◌∙◌, ◌⊎◌, inl, inr, true, false, [], arith, length,
  ◌==◌, Bool-cases, if◌then◌else◌,
}
use superspace.Base.Int.{ℤ, pos, negsuc}
use superspace.Base.Text.{Text, is_empty}
use native.Mathlib.Nat.{mod-eq_of_lt, mod_self}
use superspace.Ui.Palette.{
  PaletteMode, results, actions, PaletteKey, PaletteEvent, dismiss, PaletteModel, actions_in,
  rows_in, index_in, select_in, wrapped, checked_add_signed, or_last, move_selection_by,
}
use superspace.Ui.Palette.Update.{rerank, set_query, key, key_escape}
use superspace.Ui.Palette.Validity.{IsValid}

wrapped_down :
    (i n : ℕ) → i < n → n < 2 ^ 64 → wrapped i (pos 1) n ≡ (if i + 1 == n then 0 else i + 1)
unfolding wrapped checked_add_signed or_last
wrapped_down i n h b = elim (Bool-cases (i + 1 == n)) [
  | inl last ↦
      let e : i + 1 ≡ n = ground arith in
      let around : (i + 1) % n ≡ 0 = rw (← e) (mod_self (i + 1)) in ground arith
  | inr within ↦
      let lt : i + 1 < n = ground arith in
      let next : (i + 1) % n ≡ i + 1 = mod-eq_of_lt lt in ground arith
]

wrapped_up : (i n : ℕ) → i < n → wrapped i (negsuc 0) n ≡ (if i == 0 then n - 1 else i - 1)
unfolding wrapped checked_add_signed or_last
wrapped_up i n h =
    let last : (n - 1) % n ≡ n - 1 = mod-eq_of_lt (omega arith) in
    let before : (i - 1) % n ≡ i - 1 = mod-eq_of_lt (omega arith) in ground arith

down_up_index : (i n : ℕ) → i < n → n < 2 ^ 64 → wrapped (wrapped i (pos 1) n) (negsuc 0) n ≡ i
down_up_index i n h b =
    rw (wrapped_down i n h b) (ground (arith, wrapped_up (if i + 1 == n then 0 else i + 1) n))

up_down_index : (i n : ℕ) → i < n → n < 2 ^ 64 → wrapped (wrapped i (negsuc 0) n) (pos 1) n ≡ i
up_down_index i n h b =
    rw (wrapped_up i n h) (ground (arith, wrapped_down (if i == 0 then n - 1 else i - 1) n))

-- The row of the active surface is one of its rows, if there is any.
index_in-lt :
    (mode : PaletteMode) (m : PaletteModel)
    → m.mode ≡ mode
    → IsValid m
    → (rows_in mode m == 0) ≡ false
    → index_in mode m < rows_in mode m
unfolding index_in rows_in
index_in-lt results m e v h = elim v.selection [
  | inl first ↦ ground (arith, first)
  | inr inside ↦ inside
]
index_in-lt actions m e v h = v.action e

-- The move on a given surface.
move_in : PaletteMode → ℤ → PaletteModel → PaletteModel
move_in mode delta m =
    if rows_in mode m == 0
    then m
    else select_in mode (wrapped (index_in mode m) delta (rows_in mode m)) m

move_selection_by-move_in :
    (mode : PaletteMode) (delta : ℤ) (m : PaletteModel)
    → m.mode ≡ mode
    → move_selection_by delta m ≡ move_in mode delta m
unfolding move_selection_by move_in
move_selection_by-move_in mode delta m e = ap (λ k. move_in k delta m) e

move_in-mode :
    (mode : PaletteMode) (delta : ℤ) (m : PaletteModel) → (move_in mode delta m).mode ≡ m.mode
unfolding move_in select_in
move_in-mode results delta m = elim (Bool-cases (rows_in results m == 0)) [
  | inl none_there ↦ rw none_there refl
  | inr some_there ↦ rw some_there refl
]
move_in-mode actions delta m = elim (Bool-cases (rows_in actions m == 0)) [
  | inl none_there ↦ rw none_there refl
  | inr some_there ↦ rw some_there refl
]

-- Moving twice, where the second move undoes the first on the row's number.
move_in-move_in :
    (mode : PaletteMode) (first second : ℤ) (m : PaletteModel)
    → ((rows_in mode m == 0) ≡ false
        → wrapped (wrapped (index_in mode m) first (rows_in mode m)) second (rows_in mode m)
          ≡ index_in mode m)
    → move_in mode second (move_in mode first m) ≡ m
unfolding move_in select_in index_in rows_in actions_in
move_in-move_in results first second m back = elim (Bool-cases (length m.matches == 0)) [
  | inl none_there ↦ rw (none_there, none_there) refl
  | inr some_there ↦
      rw (some_there, some_there) (ap (λ i. record m { selected = i }) (back some_there))
]
move_in-move_in actions first second m back = elim (Bool-cases (length (actions_in m) == 0)) [
  | inl none_there ↦ rw (none_there, none_there) refl
  | inr some_there ↦
      rw (some_there, some_there) (ap (λ i. record m { selected_action = i }) (back some_there))
]

-- Two moves by one, in either order, on a valid palette.
move_selection_by_back :
    (first second : ℤ) (m : PaletteModel)
    → IsValid m
    → rows_in m.mode m < 2 ^ 64
    → ((i n : ℕ) → i < n → n < 2 ^ 64 → wrapped (wrapped i first n) second n ≡ i)
    → move_selection_by second (move_selection_by first m) ≡ m
move_selection_by_back first second m v b back =
    ap (move_selection_by second) (move_selection_by-move_in m.mode first m refl)
    ∙ move_selection_by-move_in m.mode second (move_in m.mode first m) (move_in-mode m.mode first m)
    ∙ move_in-move_in m.mode first second m
        (λ h. back (index_in m.mode m) (rows_in m.mode m) (index_in-lt m.mode m refl v h) b)

module _ (to_lowercase : Text → Text) where
  -- Down and then Up, or Up and then Down, gives the palette back, on the results as in the action
  -- menu and also over the ends of the list; the palette is valid and a usize counts its rows.
  pub key-key_back :
      (m : PaletteModel)
      → IsValid m
      → rows_in m.mode m < 2 ^ 64
      → ((key to_lowercase PaletteKey.up (key to_lowercase PaletteKey.down m).0).0 ≡ m)
        × ((key to_lowercase PaletteKey.down (key to_lowercase PaletteKey.up m).0).0 ≡ m)
  unfolding key
  key-key_back m v b = (
    move_selection_by_back (pos 1) (negsuc 0) m v b down_up_index,
    move_selection_by_back (negsuc 0) (pos 1) m v b up_down_index,
  )

  abbrev pub escaped : PaletteModel → PaletteModel
  escaped m = (key to_lowercase PaletteKey.escape m).0

  abbrev pub event_of_escape : PaletteModel → PaletteEvent
  event_of_escape m = (key to_lowercase PaletteKey.escape m).1

  key-key_escape :
      (mode : PaletteMode) (m : PaletteModel)
      → m.mode ≡ mode
      → key to_lowercase PaletteKey.escape m ≡ key_escape to_lowercase mode m
  unfolding key
  key-key_escape mode m e = ap (λ k. key_escape to_lowercase k m) e

  escape_empty :
      (m : PaletteModel) → m.mode ≡ results → is_empty m.query ≡ true → event_of_escape m ≡ dismiss
  unfolding key_escape
  escape_empty m e empty = ap (λ r. r.1) (key-key_escape results m e) ∙ rw empty refl

  -- On the results Escape dismisses an empty query and clears any other, so that the next dismisses.
  escape_results :
      (m : PaletteModel)
      → m.mode ≡ results
      → (event_of_escape m ≡ dismiss) ⊎ (event_of_escape (escaped m) ≡ dismiss)
  unfolding key_escape set_query rerank
  escape_results m e = elim (Bool-cases (is_empty m.query)) [
    | inl empty ↦ inl (escape_empty m e empty)
    | inr typed ↦
        let cleared : escaped m ≡ set_query to_lowercase [] m =
          ap (λ r. r.0) (key-key_escape results m e) ∙ rw typed refl in
        inr (ap event_of_escape cleared ∙ escape_empty (set_query to_lowercase [] m) refl refl)
  ]

  escape_from :
      (mode : PaletteMode) (m : PaletteModel)
      → m.mode ≡ mode
      → (event_of_escape m ≡ dismiss)
        ⊎ (event_of_escape (escaped m) ≡ dismiss)
        ⊎ (event_of_escape (escaped (escaped m)) ≡ dismiss)
  unfolding key_escape
  escape_from results m e = elim (escape_results m e) [
    | inl now ↦ inl now
    | inr next ↦ inr (inl next)
  ]
  escape_from actions m e =
      let closed : (escaped m).mode ≡ results = ap (λ r. r.0.mode) (key-key_escape actions m e) in
      inr (escape_results (escaped m) closed)

  -- From any state at most three presses of Escape dismiss the palette.
  pub escape_dismisses :
      (m : PaletteModel)
      → (event_of_escape m ≡ dismiss)
        ⊎ (event_of_escape (escaped m) ≡ dismiss)
        ⊎ (event_of_escape (escaped (escaped m)) ≡ dismiss)
  escape_dismisses m = escape_from m.mode m refl
