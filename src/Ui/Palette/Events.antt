-- ===== src/Ui/Palette/Events.antt =====
-- What the palette of crates/ui/src/model.rs invokes is what it highlights.
use superspace.Base.{
  ℕ, ◌≡◌, ◌≢◌, refl, sym, ◌∙◌, inl, inr, some, List, arith, get_elem?, Bool-cases, Option-cases,
}
use superspace.Base.Text.{Text, is_empty}
use superspace.Ui.Palette.{
  ActionItem, PaletteEntry, PaletteMode, results, actions, PaletteKey, invoke, PaletteModel,
  selected_entry, select, invoke_selected, invoke_row, event_for, event_of, chosen_action,
}
use superspace.Ui.Palette.Update.{
  Operation, set_query_to, select_row, move_by, invoke_at, replace, replace_ordered, prefer_entry,
  press, perform, key, key_escape,
}

-- The row of the selected entry's actions that Enter invokes: its first on the results, and the
-- selected one in the action menu.
abbrev pub action_row : PaletteMode → ℕ → ℕ
action_row results selected_action = 0
action_row actions selected_action = selected_action

-- The selected entry and its action have the identifiers.
abbrev pub Highlights : PaletteModel → Text → Text → Type 0
Highlights m entry_id action_id =
    (entry : PaletteEntry) × (action : ActionItem) × (selected_entry m ≡ some entry)
    × (entry.id ≡ entry_id)
    × (get_elem? entry.actions (action_row m.mode m.selected_action) ≡ some action)
    × (action.id ≡ action_id)

chosen_action-get_elem? :
    (mode : PaletteMode) (row : ℕ) (menu : List ActionItem)
    → chosen_action mode row menu ≡ get_elem? menu (action_row mode row)
unfolding chosen_action
chosen_action-get_elem? results row menu = refl
chosen_action-get_elem? actions row menu = refl

invoke_selected-Highlights :
    (m : PaletteModel) (entry_id action_id : Text)
    → invoke_selected m ≡ invoke entry_id action_id
    → Highlights m entry_id action_id
unfolding invoke_selected event_for event_of
invoke_selected-Highlights m entry_id action_id h = elim (Option-cases (selected_entry m)) [
  | inl nobody ↦ absurd (ground (arith, nobody, h))
  | inr (entry, chosen) ↦
      elim (Option-cases (chosen_action m.mode m.selected_action entry.actions)) [
        | inl no_action ↦ absurd (ground (arith, rw (chosen, no_action) at h))
        | inr (action, found) ↦
            let both : invoke entry.id action.id ≡ invoke entry_id action_id =
              rw (chosen, found) at h in
            (
              entry,
              action,
              chosen,
              cc,
              sym (chosen_action-get_elem? m.mode m.selected_action entry.actions) ∙ found,
              cc,
            )
      ]
]

key_escape-ne_invoke :
    (to_lowercase : Text → Text) (mode : PaletteMode) (m : PaletteModel) (entry_id action_id : Text)
    → (key_escape to_lowercase mode m).1 ≢ invoke entry_id action_id
unfolding key_escape
key_escape-ne_invoke to_lowercase results m entry_id action_id =
    elim (Bool-cases (is_empty m.query)) [
      | inl empty ↦ rw empty (λ e. cc)
      | inr typed ↦ rw typed (λ e. cc)
    ]
key_escape-ne_invoke to_lowercase actions m entry_id action_id = λ e. cc

module _ (to_lowercase : Text → Text) where
  key-Highlights :
      (k : PaletteKey) (m : PaletteModel) (entry_id action_id : Text)
      → (key to_lowercase k m).1 ≡ invoke entry_id action_id
      → Highlights (key to_lowercase k m).0 entry_id action_id
  unfolding key
  key-Highlights PaletteKey.enter m e a h = invoke_selected-Highlights m e a h
  key-Highlights PaletteKey.escape m e a h =
      absurd (key_escape-ne_invoke to_lowercase m.mode m e a h)
  key-Highlights (PaletteKey.text t) m e a h = cc
  key-Highlights PaletteKey.backspace m e a h = cc
  key-Highlights PaletteKey.up m e a h = cc
  key-Highlights PaletteKey.down m e a h = cc
  key-Highlights PaletteKey.open_actions m e a h = cc

  -- Whatever operation asks to invoke an action, it is the one that the palette highlights after it: an
  -- action of the selected entry, the first one on the results and the selected one in the action menu.
  pub perform-Highlights :
      (o : Operation) (m : PaletteModel) (entry_id action_id : Text)
      → (perform to_lowercase o m).1 ≡ invoke entry_id action_id
      → Highlights (perform to_lowercase o m).0 entry_id action_id
  unfolding perform invoke_row
  perform-Highlights (press k) m e a h = key-Highlights k m e a h
  perform-Highlights (invoke_at index) m e a h = elim (Bool-cases (select index m).1) [
    | inl visible ↦ invoke_selected-Highlights (select index m).0 e a (rw visible at h)
    | inr outside ↦ absurd (ground (arith, rw outside at h))
  ]
  perform-Highlights (set_query_to query) m e a h = cc
  perform-Highlights (select_row index) m e a h = cc
  perform-Highlights (move_by delta) m e a h = cc
  perform-Highlights (replace entries) m e a h = cc
  perform-Highlights (replace_ordered entries) m e a h = cc
  perform-Highlights (prefer_entry id alias favorite frequency) m e a h = cc
