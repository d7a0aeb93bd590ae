-- ===== src/Ui/Palette.antt =====
-- crates/ui/src/model.rs: the palette, its search results, selection and action menu. A usize has 64 bits.
pub mod Update
pub mod Validity
pub mod Navigation
pub mod Results
pub mod Events
mod Examples
use superspace.Base.{
  ℕ, suc, ◌+◌, ◌-◌, ◌%◌, ◌^◌, Bool, true, false, not, ◌&&◌, Option, none, some, List, [], ◌∷◌, ◌++◌,
  length, retain, map, ltb, leb, ◌==◌, get_elem?, if◌then◌else◌,
}
use superspace.Base.Int.{ℤ, pos, negsuc}
use superspace.Base.Text.{Text, text_eq, starts_with, is_empty}
use superspace.Core.Search.{SearchCandidate, SearchMatch, rank_candidates}

pub record ActionItem : Type 0 where
  pub id : Text
  pub title : Text
  pub shortcut : Option Text

pub data PaletteEntryKind : Type 0 where
  application file command calculation clipboard tool emoji : PaletteEntryKind

pub record PaletteEntry : Type 0 where
  pub id : Text
  pub title : Text
  pub subtitle : Text
  pub kind : PaletteEntryKind
  pub icon : Option Text
  pub keywords : List Text
  pub preview : Text
  pub frequency : ℕ
  pub favorite : Bool
  pub actions : List ActionItem

pub data PaletteMode : Type 0 where
  results actions : PaletteMode

pub data PaletteKey : Type 0 where
  text : Text → PaletteKey
  backspace up down enter open_actions escape : PaletteKey

pub data PaletteEvent : Type 0 where
  nothing : PaletteEvent
  invoke : Text → Text → PaletteEvent
  dismiss : PaletteEvent

pub record PaletteModel : Type 0 where
  pub entries : List PaletteEntry
  pub query : Text
  pub matches : List ℕ
  pub selected : ℕ
  pub mode : PaletteMode
  pub selected_action : ℕ

-- `entries[index]`, which panics where this is `none`.
entry_at : List PaletteEntry → Option ℕ → Option PaletteEntry
entry_at entries none = none
entry_at entries (some index) = get_elem? entries index

pub selected_entry : PaletteModel → Option PaletteEntry
unfolding entry_at
selected_entry self = entry_at self.entries (get_elem? self.matches self.selected)

actions_of : Option PaletteEntry → List ActionItem
actions_of none = []
actions_of (some entry) = entry.actions

pub actions_in : PaletteModel → List ActionItem
unfolding actions_of selected_entry
actions_in self = actions_of (selected_entry self)

-- The number of rows on the active surface, and its selected row.
pub rows_in : PaletteMode → PaletteModel → ℕ
unfolding actions_in
rows_in PaletteMode.results self = length self.matches
rows_in PaletteMode.actions self = length (actions_in self)

select_in : PaletteMode → ℕ → PaletteModel → PaletteModel
select_in PaletteMode.results index self = record self { selected = index }
select_in PaletteMode.actions index self = record self { selected_action = index }

index_in : PaletteMode → PaletteModel → ℕ
index_in PaletteMode.results self = self.selected
index_in PaletteMode.actions self = self.selected_action

pub selected_index : PaletteModel → ℕ
unfolding index_in
selected_index self = index_in self.mode self

pub select : ℕ → PaletteModel → PaletteModel × Bool
unfolding rows_in select_in
select index self =
    if leb (rows_in self.mode self) index
    then (self, false)
    else (select_in self.mode index self, true)

-- `usize::checked_add_signed`
checked_add_signed : ℕ → ℤ → Option ℕ
checked_add_signed n (pos d) = if ltb (n + d) (2 ^ 64) then some (n + d) else none
checked_add_signed n (negsuc d) = if leb (d + 1) n then some (n - (d + 1)) else none

or_last : Option ℕ → ℕ → ℕ
or_last none length = length - 1
or_last (some n) length = n

wrapped : ℕ → ℤ → ℕ → ℕ
unfolding checked_add_signed or_last
wrapped selection delta length = or_last (checked_add_signed selection delta) length % length

pub move_selection_by : ℤ → PaletteModel → PaletteModel
unfolding rows_in select_in index_in wrapped
move_selection_by delta self =
    let length = rows_in self.mode self in
    if length == 0
    then self
    else select_in self.mode (wrapped (index_in self.mode self) delta length) self

event_of : Text → Option ActionItem → PaletteEvent
event_of entry_id none = nothing
event_of entry_id (some action) = invoke entry_id action.id

chosen_action : PaletteMode → ℕ → List ActionItem → Option ActionItem
chosen_action PaletteMode.results selected_action menu = get_elem? menu 0
chosen_action PaletteMode.actions selected_action menu = get_elem? menu selected_action

event_for : PaletteModel → Option PaletteEntry → PaletteEvent
unfolding event_of chosen_action
event_for self none = nothing
event_for self (some entry) =
    event_of entry.id (chosen_action self.mode self.selected_action entry.actions)

pub invoke_selected : PaletteModel → PaletteEvent
unfolding event_for selected_entry
invoke_selected self = event_for self (selected_entry self)

-- `invoke`
pub invoke_row : ℕ → PaletteModel → PaletteModel × PaletteEvent
unfolding select invoke_selected
invoke_row index self =
    let (self', visible) = select index self in
    (self', if visible then invoke_selected self' else nothing)

-- `iter().position(|entry| entry.id == id)`
position : Text → List PaletteEntry → Option ℕ
position id [] = none
position id (entry ∷ entries) =
    let rest = position id entries in
    if text_eq entry.id id then some 0 else elim rest [ none ↦ none | some i ↦ some (suc i) ]

cons_some : Option ℕ → List ℕ → List ℕ
cons_some none indices = indices
cons_some (some index) indices = index ∷ indices

-- The `filter_map` of `rerank`.
positions : List PaletteEntry → List SearchMatch → List ℕ
unfolding position cons_some
positions entries [] = []
positions entries (matched ∷ ranked) =
    cons_some (position matched.candidate.id entries) (positions entries ranked)

pub candidate_of : PaletteEntry → SearchCandidate
candidate_of entry = record {
  id = entry.id;
  title = entry.title;
  keywords = entry.keywords;
  frequency = entry.frequency;
  favorite = entry.favorite;
}

cons_entry : Option PaletteEntry → List PaletteEntry → List PaletteEntry
cons_entry none entries = entries
cons_entry (some entry) entries = entry ∷ entries

-- `matches.iter().map(|&index| &entries[index])`, for indices in range.
entries_at : List PaletteEntry → List ℕ → List PaletteEntry
unfolding cons_entry
entries_at entries [] = []
entries_at entries (index ∷ indices) =
    cons_entry (get_elem? entries index) (entries_at entries indices)

-- `results`
pub results_of : PaletteModel → List PaletteEntry
unfolding entries_at
results_of self = entries_at self.entries self.matches
