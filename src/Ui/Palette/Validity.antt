-- ===== src/Ui/Palette/Validity.antt =====
-- Whatever is done with the palette of crates/ui/src/model.rs, its indices stay within its lists, so
-- that no `entries[index]` panics.
use superspace.Base.{
  ℕ, suc, zero, ◌+◌, ◌<◌, ◌≡◌, refl, ◌⊎◌, inl, inr, Option, none, some, List, [], ◌∷◌, ◌++◌, map,
  arith, All, length, leb, ◌==◌, ◌≤◌, Bool-cases, Option-cases,
}
use superspace.Base.Int.{ℤ, pos, negsuc}
use superspace.Base.Text.{Text, is_empty}
use superspace.Core.Search.{SearchMatch, rank_candidates}
use superspace.Ui.Palette.{
  ActionItem, PaletteEntry, PaletteMode, results, actions, PaletteKey, PaletteModel, actions_in,
  select, move_selection_by, wrapped, rows_in, index_in, select_in, invoke_row, position, positions,
  cons_some, candidate_of, selected_entry,
}
use superspace.Ui.Palette.Update.{
  range_from, match_position, select_position, reselect, replace_entries, replace_entries_ordered,
  rerank, new, set_query, update_preference, preferred, key, key_text, key_escape, key_open_actions,
  pop, update_first, prefer, Operation, set_query_to, select_row, move_by, invoke_at, replace,
  replace_ordered, prefer_entry, press, perform, run,
}

-- The palette's indices are in range.
pub record IsValid (m : PaletteModel) : Type 0 where
  pub indices : All (λ i. i < length m.entries) m.matches
  pub selection : (m.selected ≡ 0) ⊎ (m.selected < length m.matches)
  pub action : m.mode ≡ actions → m.selected_action < length (actions_in m)

position-lt :
    (id : Text) (entries : List PaletteEntry) (i : ℕ)
    → position id entries ≡ some i
    → i < length entries
unfolding position
position-lt id [] i h = cc
position-lt id (e ∷ es) i h = elim (Option-cases (position id es)) [
  | inl missed ↦ ground (arith, missed)
  | inr (j, hit) ↦ ground (arith, hit, position-lt id es j hit)
]

positions-All :
    (entries : List PaletteEntry) (ranked : List SearchMatch)
    → All (λ i. i < length entries) (positions entries ranked)
unfolding positions cons_some
positions-All entries [] = tt
positions-All entries (m ∷ ms) = elim (Option-cases (position m.candidate.id entries)) [
  | inl missed ↦ rw missed (positions-All entries ms)
  | inr (i, hit) ↦ rw hit (position-lt m.candidate.id entries i hit, positions-All entries ms)
]

range_from-All : (first n bound : ℕ) → first + n ≤ bound → All (λ i. i < bound) (range_from first n)
range_from-All first zero bound h = tt
range_from-All first (suc n) bound h =
    (omega arith, range_from-All (suc first) n bound (omega arith))

match_position-lt :
    (entries : List PaletteEntry) (id : Text) (indices : List ℕ) (i : ℕ)
    → match_position entries id indices ≡ some i
    → i < length indices
unfolding match_position
match_position-lt entries id [] i h = cc
match_position-lt entries id (x ∷ xs) i h = elim (Option-cases (match_position entries id xs)) [
  | inl missed ↦ ground (arith, missed)
  | inr (j, hit) ↦ ground (arith, hit, match_position-lt entries id xs j hit)
]

wrapped-lt : (selection : ℕ) (delta : ℤ) (n : ℕ) → 0 < n → wrapped selection delta n < n
unfolding wrapped
wrapped-lt selection delta n h = omega arith

select_in-IsValid :
    (mode : PaletteMode) (index : ℕ) (m : PaletteModel)
    → m.mode ≡ mode
    → IsValid m
    → index < rows_in mode m
    → IsValid (select_in mode index m)
unfolding select_in rows_in actions_in
select_in-IsValid results index m e v h = record {
  indices = v.indices;
  selection = inr h;
  action = λ bad. cc;
}
select_in-IsValid actions index m e v h = record {
  indices = v.indices;
  selection = v.selection;
  action = λ same. h;
}

select-IsValid : (index : ℕ) (m : PaletteModel) → IsValid m → IsValid (select index m).0
unfolding select
select-IsValid index m v = elim (Bool-cases (leb (rows_in m.mode m) index)) [
  | inl outside ↦ rw outside v
  | inr inside ↦ rw inside (select_in-IsValid m.mode index m refl v (ground arith))
]

move_selection_by-IsValid :
    (delta : ℤ) (m : PaletteModel) → IsValid m → IsValid (move_selection_by delta m)
unfolding move_selection_by
move_selection_by-IsValid delta m v = elim (Bool-cases (rows_in m.mode m == 0)) [
  | inl none_there ↦ rw none_there v
  | inr some_there ↦ rw some_there (
      select_in-IsValid m.mode (wrapped (index_in m.mode m) delta (rows_in m.mode m)) m refl v
        (wrapped-lt (index_in m.mode m) delta (rows_in m.mode m) (ground arith)))
]

replace_entries_ordered-IsValid :
    (entries : List PaletteEntry) (m : PaletteModel) → IsValid (replace_entries_ordered entries m)
unfolding replace_entries_ordered
replace_entries_ordered-IsValid entries m = record {
  indices = range_from-All 0 (length entries) (length entries) (omega arith);
  selection = inl refl;
  action = λ e. cc;
}

key_open_actions-IsValid :
    (menu : List ActionItem) (m : PaletteModel)
    → menu ≡ actions_in m
    → IsValid m
    → IsValid (key_open_actions menu m)
unfolding key_open_actions actions_in
key_open_actions-IsValid [] m e v = v
key_open_actions-IsValid (a ∷ rest) m e v = record {
  indices = v.indices;
  selection = v.selection;
  action = λ same. rw (← e) (omega arith);
}

module _ (to_lowercase : Text → Text) where
  rerank-IsValid : (m : PaletteModel) → IsValid (rerank to_lowercase m)
  unfolding rerank
  rerank-IsValid m = record {
    indices =
        positions-All m.entries (rank_candidates to_lowercase m.query (map candidate_of m.entries));
    selection = inl refl;
    action = λ e. cc;
  }

  reselect-IsValid :
      (chosen : Option PaletteEntry) (m : PaletteModel)
      → IsValid m
      → m.mode ≡ results
      → IsValid (reselect chosen m)
  unfolding reselect select_position
  reselect-IsValid none m v e = v
  reselect-IsValid (some entry) m v e =
      elim (Option-cases (match_position m.entries entry.id m.matches)) [
        | inl missed ↦ rw missed v
        | inr (i, hit) ↦ rw hit (record {
          indices = v.indices;
          selection = inr (match_position-lt m.entries entry.id m.matches i hit);
          action = λ bad. cc;
        })
      ]

  replace_entries-IsValid :
      (entries : List PaletteEntry) (m : PaletteModel)
      → IsValid (replace_entries to_lowercase entries m)
  unfolding replace_entries
  replace_entries-IsValid entries m =
      let m' = record m { entries = entries } in
      reselect-IsValid (selected_entry m) (rerank to_lowercase m') (rerank-IsValid m')
        (unfold rerank in refl)

  preferred-IsValid :
      (es : Option (List PaletteEntry)) (m : PaletteModel)
      → IsValid m
      → IsValid (preferred to_lowercase es m).0
  unfolding preferred
  preferred-IsValid none m v = v
  preferred-IsValid (some es) m v = rerank-IsValid (record m { entries = es })

  key_text-IsValid :
      (mode : PaletteMode) (query : Text) (m : PaletteModel)
      → IsValid m
      → IsValid (key_text to_lowercase mode query m)
  unfolding key_text set_query
  key_text-IsValid results query m v = rerank-IsValid (record m { query = query })
  key_text-IsValid actions query m v = v

  key_escape-IsValid :
      (mode : PaletteMode) (m : PaletteModel)
      → IsValid m
      → IsValid (key_escape to_lowercase mode m).0
  unfolding key_escape set_query
  key_escape-IsValid actions m v = record {
    indices = v.indices;
    selection = v.selection;
    action = λ bad. cc;
  }
  key_escape-IsValid results m v = elim (Bool-cases (is_empty m.query)) [
    | inl empty ↦ rw empty v
    | inr typed ↦ rw typed (rerank-IsValid (record m { query = [] }))
  ]

  key-IsValid : (k : PaletteKey) (m : PaletteModel) → IsValid m → IsValid (key to_lowercase k m).0
  unfolding key
  key-IsValid (PaletteKey.text t) m v = key_text-IsValid m.mode (m.query ++ t) m v
  key-IsValid PaletteKey.backspace m v = key_text-IsValid m.mode (pop m.query) m v
  key-IsValid PaletteKey.up m v = move_selection_by-IsValid (negsuc 0) m v
  key-IsValid PaletteKey.down m v = move_selection_by-IsValid (pos 1) m v
  key-IsValid PaletteKey.open_actions m v = key_open_actions-IsValid (actions_in m) m refl v
  key-IsValid PaletteKey.enter m v = v
  key-IsValid PaletteKey.escape m v = key_escape-IsValid m.mode m v

  perform-IsValid :
      (o : Operation) (m : PaletteModel) → IsValid m → IsValid (perform to_lowercase o m).0
  unfolding perform set_query invoke_row update_preference
  perform-IsValid (set_query_to query) m v = rerank-IsValid (record m { query = query })
  perform-IsValid (select_row index) m v = select-IsValid index m v
  perform-IsValid (move_by delta) m v = move_selection_by-IsValid delta m v
  perform-IsValid (invoke_at index) m v = select-IsValid index m v
  perform-IsValid (replace entries) m v = replace_entries-IsValid entries m
  perform-IsValid (replace_ordered entries) m v = replace_entries_ordered-IsValid entries m
  perform-IsValid (prefer_entry id alias favorite frequency) m v =
      preferred-IsValid (update_first id (prefer alias favorite frequency) m.entries) m v
  perform-IsValid (press k) m v = key-IsValid k m v

  pub run-IsValid :
      (os : List Operation) (m : PaletteModel) → IsValid m → IsValid (run to_lowercase os m)
  unfolding run
  run-IsValid [] m v = v
  run-IsValid (o ∷ os) m v = run-IsValid os (perform to_lowercase o m).0 (perform-IsValid o m v)

  new-IsValid : (entries : List PaletteEntry) → IsValid (new to_lowercase entries)
  unfolding new
  new-IsValid entries = rerank-IsValid (record {
    entries = entries;
    query = [];
    matches = [];
    selected = 0;
    mode = results;
    selected_action = 0;
  })

  -- Whatever is done with a new palette, every match is an index of an entry, the selected row is one of
  -- the results unless it is row 0, and in the action menu the selected action is one of the selected
  -- entry's actions.
  pub run-new-IsValid :
      (entries : List PaletteEntry) (os : List Operation)
      → IsValid (run to_lowercase os (new to_lowercase entries))
  run-new-IsValid entries os = run-IsValid os (new to_lowercase entries) (new-IsValid entries)
