-- ===== src/Ui/Palette/Examples.antt =====
-- The palette of crates/ui/src/model.rs on examples, with texts that are in lower case already.
use superspace.Base.{
  ℕ, ◌≡◌, ◌⊎◌, refl, inl, inr, true, false, none, some, List, [], ◌∷◌, map, arith,
}
use superspace.Base.Int.{pos, negsuc}
use superspace.Base.Text.{Text}
use superspace.Core.Search.{SearchMatch, rank_candidates}
use superspace.Ui.Palette.{
  ActionItem, PaletteEntry, PaletteEntryKind, PaletteMode, PaletteKey, PaletteEvent, dismiss,
  PaletteModel, candidate_of, results_of, selected_entry, selected_index, move_selection_by,
}
use superspace.Ui.Palette.Update.{new, rerank, key, run, perform, replace_entries, Operation, press}
use superspace.Ui.Palette.Validity.{IsValid, run-new-IsValid}
use superspace.Ui.Palette.Navigation.{escaped, event_of_escape, key-key_back, escape_dismisses}
use superspace.Ui.Palette.Results.{results_of-rerank, selected_entry-replace_entries}
use superspace.Ui.Palette.Events.{Highlights, perform-Highlights}

abbrev to_lowercase : Text → Text
to_lowercase t = t

abbrev open_action : ActionItem
open_action = record { id = b'o' ∷ []; title = b'o' ∷ []; shortcut = none }

abbrev copy_action : ActionItem
copy_action = record { id = b'c' ∷ []; title = b'c' ∷ []; shortcut = none }

abbrev entry_named : Text → PaletteEntry
entry_named name = record {
  id = name;
  title = name;
  subtitle = [];
  kind = PaletteEntryKind.command;
  icon = none;
  keywords = [];
  preview = [];
  frequency = 0;
  favorite = false;
  actions = open_action ∷ copy_action ∷ [];
}

abbrev ab : Text
ab = b'a' ∷ b'b' ∷ []

abbrev xb : Text
xb = b'x' ∷ b'b' ∷ []

abbrev entries : List PaletteEntry
entries = entry_named ab ∷ entry_named xb ∷ []

-- The action menu of the second of two results.
abbrev in_menu : PaletteModel
in_menu = record {
  entries = entries;
  query = b'b' ∷ [];
  matches = 0 ∷ 1 ∷ [];
  selected = 1;
  mode = PaletteMode.actions;
  selected_action = 1;
}

in_menu-IsValid : IsValid in_menu
unfolding superspace.Ui.Palette.actions_in superspace.Ui.Palette.selected_entry
in_menu-IsValid = record {
  indices = (omega arith, (omega arith, tt));
  selection = inr (omega arith);
  action = λ e. omega arith;
}

abbrev session : List Operation
session =
    press (PaletteKey.text (b'b' ∷ []))
    ∷ press PaletteKey.down
    ∷ press PaletteKey.open_actions
    ∷ press PaletteKey.down
    ∷ []

session_selects : selected_index (run to_lowercase session (new to_lowercase entries)) ≡ 1
unfolding run new selected_index rank_candidates superspace.Base.Sort.sort_by
    superspace.Core.Search.candidate_score superspace.Base.Text.trim candidate_of
    superspace.Core.Search.fuzzy_score superspace.Core.Search.compare_matches
session_selects = refl

run-new-IsValid_example : IsValid (run to_lowercase session (new to_lowercase entries))
run-new-IsValid_example = run-new-IsValid to_lowercase entries session

key-key_back_example :
    ((key to_lowercase PaletteKey.up (key to_lowercase PaletteKey.down in_menu).0).0 ≡ in_menu)
    × ((key to_lowercase PaletteKey.down (key to_lowercase PaletteKey.up in_menu).0).0 ≡ in_menu)
unfolding superspace.Ui.Palette.rows_in
key-key_back_example = key-key_back to_lowercase in_menu in_menu-IsValid (omega arith)

escape_dismisses_example :
    (event_of_escape to_lowercase in_menu ≡ dismiss)
    ⊎ (event_of_escape to_lowercase (escaped to_lowercase in_menu) ≡ dismiss)
    ⊎ (event_of_escape to_lowercase (escaped to_lowercase (escaped to_lowercase in_menu)) ≡ dismiss)
escape_dismisses_example = escape_dismisses to_lowercase in_menu

results_of-rerank_example :
    map (λ (e : PaletteEntry). e.id) (results_of (rerank to_lowercase in_menu))
    ≡ map
        (λ (r : SearchMatch). r.candidate.id)
        (rank_candidates to_lowercase (b'b' ∷ []) (map candidate_of entries))
results_of-rerank_example = results_of-rerank to_lowercase in_menu

selected_entry-replace_entries_example :
    (e : PaletteEntry) × (selected_entry
        (replace_entries to_lowercase (entry_named xb ∷ []) in_menu)
      ≡ some e)
    × (e.id ≡ xb)
unfolding selected_entry results_of rerank rank_candidates superspace.Base.Sort.sort_by
    superspace.Core.Search.candidate_score superspace.Base.Text.trim candidate_of
    superspace.Core.Search.fuzzy_score
selected_entry-replace_entries_example =
    selected_entry-replace_entries to_lowercase (entry_named xb ∷ []) in_menu (entry_named xb) refl
      (inl refl)

perform-Highlights_example :
    Highlights (perform to_lowercase (press PaletteKey.enter) in_menu).0 xb (b'c' ∷ [])
unfolding perform
perform-Highlights_example =
    perform-Highlights to_lowercase (press PaletteKey.enter) in_menu xb (b'c' ∷ []) refl

-- Up from the first row goes to the last one, however far the move is.
abbrev three_results : PaletteModel
three_results = record in_menu {
  matches = 0 ∷ 1 ∷ 0 ∷ [];
  selected = 0;
  mode = PaletteMode.results;
}

move_far_up : selected_index (move_selection_by (negsuc 1) three_results) ≡ 2
unfolding move_selection_by selected_index
move_far_up = refl

move_back_down :
    selected_index (move_selection_by (pos 2) (move_selection_by (negsuc 1) three_results)) ≡ 1
unfolding move_selection_by selected_index
move_back_down = refl
