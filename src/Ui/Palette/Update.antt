-- ===== src/Ui/Palette/Update.antt =====
-- The operations of PaletteModel of crates/ui/src/model.rs that rank the entries again, its keys, and
-- a run of any operations. The lower case of a text is a parameter, as in Core/Search.
use superspace.Base.{
  ℕ, zero, Bool, true, false, not, Option, none, some, List, [], ◌∷◌, ◌++◌, map, length, retain,
  suc, get_elem?, if◌then◌else◌,
}
use superspace.Base.Int.{ℤ, pos, negsuc}
use superspace.Base.Text.{Text, text_eq, starts_with, is_empty}
use superspace.Core.Search.{rank_candidates}
use superspace.Ui.Palette.{
  ActionItem, PaletteEntry, PaletteMode, results, actions, PaletteKey, PaletteEvent, nothing,
  dismiss, PaletteModel, selected_entry, actions_in, select, move_selection_by, invoke_selected,
  invoke_row, positions, candidate_of,
}

-- `String::pop`
abbrev pub pop : Text → Text
pop [] = []
pop (c ∷ []) = []
pop (c ∷ d ∷ s) = c ∷ pop (d ∷ s)

-- 0, 1, ... as `(0..n).collect()`, from a first number on.
abbrev pub range_from : ℕ → ℕ → List ℕ
range_from first zero = []
range_from first (suc n) = first ∷ range_from (suc first) n

abbrev alias_prefix : Text
alias_prefix = b'a' ∷ b'l' ∷ b'i' ∷ b'a' ∷ b's' ∷ b':' ∷ []

-- `if let Some(alias) = alias`
unfoldable pub alias_keywords : Option Text → List Text
alias_keywords none = []
alias_keywords (some alias) = (alias_prefix ++ alias) ∷ alias ∷ []

unfoldable pub prefer : Option Text → Bool → ℕ → PaletteEntry → PaletteEntry
unfolding alias_keywords
prefer alias favorite frequency entry = record entry {
  keywords =
      retain (λ keyword. not (starts_with keyword alias_prefix)) entry.keywords
      ++ alias_keywords alias;
  favorite = favorite;
  frequency = frequency;
}

-- The first entry with the identifier is changed, if there is one.
unfoldable pub update_first :
    Text → (PaletteEntry → PaletteEntry) → List PaletteEntry → Option (List PaletteEntry)
update_first id f [] = none
update_first id f (entry ∷ entries) =
    let rest = update_first id f entries in
    if text_eq entry.id id
    then some (f entry ∷ entries)
    else elim rest [ none ↦ none | some es ↦ some (entry ∷ es) ]

unfoldable pub is_entry : Text → Option PaletteEntry → Bool
is_entry id none = false
is_entry id (some entry) = text_eq entry.id id

-- `self.matches.iter().position(|&index| self.entries[index].id == id)`
unfoldable pub match_position : List PaletteEntry → Text → List ℕ → Option ℕ
unfolding is_entry
match_position entries id [] = none
match_position entries id (index ∷ indices) =
    let rest = match_position entries id indices in
    if is_entry id (get_elem? entries index)
    then some 0
    else elim rest [ none ↦ none | some i ↦ some (suc i) ]

unfoldable pub select_position : Option ℕ → PaletteModel → PaletteModel
select_position none self = self
select_position (some position) self = record self { selected = position }

unfoldable pub reselect : Option PaletteEntry → PaletteModel → PaletteModel
unfolding match_position select_position
reselect none self = self
reselect (some entry) self =
    select_position (match_position self.entries entry.id self.matches) self

unfoldable pub replace_entries_ordered : List PaletteEntry → PaletteModel → PaletteModel
replace_entries_ordered entries self = record self {
  entries = entries;
  matches = range_from 0 (length entries);
  selected = 0;
  mode = results;
  selected_action = 0;
}

unfoldable pub key_open_actions : List ActionItem → PaletteModel → PaletteModel
key_open_actions [] self = self
key_open_actions (action ∷ rest) self = record self { mode = actions; selected_action = 0 }

-- One call of a public operation that changes the model.
pub data Operation : Type 0 where
  set_query_to : Text → Operation
  select_row : ℕ → Operation
  move_by : ℤ → Operation
  invoke_at : ℕ → Operation
  replace : List PaletteEntry → Operation
  replace_ordered : List PaletteEntry → Operation
  prefer_entry : Text → Option Text → Bool → ℕ → Operation
  press : PaletteKey → Operation

module _ (to_lowercase : Text → Text) where
  unfoldable pub rerank : PaletteModel → PaletteModel
  unfolding positions
  rerank self = record self {
    matches =
        positions self.entries
          (rank_candidates to_lowercase self.query (map candidate_of self.entries));
    selected = 0;
    mode = results;
    selected_action = 0;
  }

  unfoldable pub new : List PaletteEntry → PaletteModel
  unfolding rerank
  new entries = rerank (record {
    entries = entries;
    query = [];
    matches = [];
    selected = 0;
    mode = results;
    selected_action = 0;
  })

  unfoldable pub set_query : Text → PaletteModel → PaletteModel
  unfolding rerank
  set_query query self = rerank (record self { query = query })

  unfoldable pub replace_entries : List PaletteEntry → PaletteModel → PaletteModel
  unfolding rerank reselect selected_entry
  replace_entries entries self =
      reselect (selected_entry self) (rerank (record self { entries = entries }))

  unfoldable pub preferred : Option (List PaletteEntry) → PaletteModel → PaletteModel × Bool
  unfolding rerank
  preferred none self = (self, false)
  preferred (some entries) self = (rerank (record self { entries = entries }), true)

  unfoldable pub update_preference :
      Text → Option Text → Bool → ℕ → PaletteModel → PaletteModel × Bool
  unfolding preferred update_first prefer
  update_preference id alias favorite frequency self =
      preferred (update_first id (prefer alias favorite frequency) self.entries) self

  -- The keys that a surface treats in its own way.
  unfoldable pub key_text : PaletteMode → Text → PaletteModel → PaletteModel
  unfolding set_query
  key_text results query self = set_query query self
  key_text actions query self = self

  unfoldable pub key_escape : PaletteMode → PaletteModel → PaletteModel × PaletteEvent
  unfolding set_query
  key_escape actions self = (record self { mode = results; selected_action = 0 }, nothing)
  key_escape results self =
      if not (is_empty self.query) then (set_query [] self, nothing) else (self, dismiss)

  unfoldable pub key : PaletteKey → PaletteModel → PaletteModel × PaletteEvent
  unfolding key_text key_escape key_open_actions actions_in move_selection_by invoke_selected
  key (PaletteKey.text t) self = (key_text self.mode (self.query ++ t) self, nothing)
  key PaletteKey.backspace self = (key_text self.mode (pop self.query) self, nothing)
  key PaletteKey.up self = (move_selection_by (negsuc 0) self, nothing)
  key PaletteKey.down self = (move_selection_by (pos 1) self, nothing)
  key PaletteKey.open_actions self = (key_open_actions (actions_in self) self, nothing)
  key PaletteKey.enter self = (self, invoke_selected self)
  key PaletteKey.escape self = key_escape self.mode self

  unfoldable pub perform : Operation → PaletteModel → PaletteModel × PaletteEvent
  unfolding set_query select move_selection_by invoke_row replace_entries replace_entries_ordered
      update_preference key
  perform (set_query_to query) self = (set_query query self, nothing)
  perform (select_row index) self = ((select index self).0, nothing)
  perform (move_by delta) self = (move_selection_by delta self, nothing)
  perform (invoke_at index) self = invoke_row index self
  perform (replace entries) self = (replace_entries entries self, nothing)
  perform (replace_ordered entries) self = (replace_entries_ordered entries self, nothing)
  perform (prefer_entry id alias favorite frequency) self =
      ((update_preference id alias favorite frequency self).0, nothing)
  perform (press k) self = key k self

  unfoldable pub run : List Operation → PaletteModel → PaletteModel
  unfolding perform
  run [] self = self
  run (operation ∷ operations) self = run operations (perform operation self).0
