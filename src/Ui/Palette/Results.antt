-- ===== src/Ui/Palette/Results.antt =====
-- The results of the palette of crates/ui/src/model.rs are the ranking of its entries.
use superspace.Base.{
  ℕ, suc, ◌≡◌, refl, ap, ◌⊎◌, inl, inr, true, false, Option, none, some, List, [], ◌∷◌, map, All,
  arith, get_elem?, Bool-cases, Option-cases,
}
use superspace.Base.Text.{Text, text_eq, text_eq→≡, text_eq_refl}
use superspace.Core.Search.{SearchCandidate, SearchMatch, rank_candidates}
use superspace.Core.Search.Ranking.{rank_candidates-All}
use superspace.Ui.Palette.{
  PaletteEntry, PaletteModel, entry_at, entries_at, cons_entry, results_of, selected_entry,
  position, positions, cons_some, candidate_of,
}
use superspace.Ui.Palette.Update.{
  rerank, reselect, select_position, match_position, is_entry, replace_entries,
}

-- An entry that is found by its identifier has it.
position-get_elem? :
    (id : Text) (entries : List PaletteEntry) (i : ℕ)
    → position id entries ≡ some i
    → (entry : PaletteEntry) × (get_elem? entries i ≡ some entry) × (entry.id ≡ id)
unfolding position
position-get_elem? id [] i h = cc
position-get_elem? id (e ∷ es) i h = elim (Bool-cases (text_eq e.id id)) [
  | inl here ↦
      let first : i ≡ 0 = ground (arith, here) in (e, rw first refl, text_eq→≡ e.id id here)
  | inr there ↦ elim (Option-cases (position id es)) [
    | inl missed ↦ absurd (ground (arith, there, missed))
    | inr (j, hit) ↦
        let (entry, found, named) = position-get_elem? id es j hit in
        let next : i ≡ suc j = ground (arith, there, hit) in (entry, rw next found, named)
  ]
]

-- The entry can be found by its identifier.
abbrev HasEntry : List PaletteEntry → SearchCandidate → Type 0
HasEntry entries c = (i : ℕ) × (position c.id entries ≡ some i)

HasEntry-cons :
    (e : PaletteEntry) (es : List PaletteEntry) (c : SearchCandidate)
    → HasEntry es c
    → HasEntry (e ∷ es) c
unfolding position
HasEntry-cons e es c (j, hit) = elim (Bool-cases (text_eq e.id c.id)) [
  | inl here ↦ (0, rw here refl)
  | inr there ↦ (suc j, rw (there, hit) refl)
]

All-HasEntry_cons :
    (e : PaletteEntry) (es : List PaletteEntry) (cs : List SearchCandidate)
    → All (HasEntry es) cs
    → All (HasEntry (e ∷ es)) cs
All-HasEntry_cons e es [] h = tt
All-HasEntry_cons e es (c ∷ cs) h = (HasEntry-cons e es c h.0, All-HasEntry_cons e es cs h.1)

candidate_of-HasEntry : (es : List PaletteEntry) → All (HasEntry es) (map candidate_of es)
unfolding position candidate_of
candidate_of-HasEntry [] = tt
candidate_of-HasEntry (e ∷ es) = (
  (0, rw (text_eq_refl e.id) refl),
  All-HasEntry_cons e es (map candidate_of es) (candidate_of-HasEntry es),
)

-- The identifiers at the positions of the matches are those of the matches.
ids-positions :
    (entries : List PaletteEntry) (ranked : List SearchMatch)
    → All (λ (m : SearchMatch). HasEntry entries m.candidate) ranked
    → map (λ (e : PaletteEntry). e.id) (entries_at entries (positions entries ranked))
      ≡ map (λ (m : SearchMatch). m.candidate.id) ranked
unfolding entries_at cons_entry positions cons_some
ids-positions entries [] h = refl
ids-positions entries (m ∷ ms) h =
    let (i, hit) = h.0 in
    let (entry, found, named) = position-get_elem? m.candidate.id entries i hit in
    rw (hit, found) (rw named (ap (◌∷◌ m.candidate.id) (ids-positions entries ms h.1)))

-- An entry of the list has the identifier.
abbrev pub HasId : Text → List PaletteEntry → Type 0
HasId id [] = ⊥
HasId id (e ∷ es) = (e.id ≡ id) ⊎ HasId id es

HasId-other :
    (id : Text) (e : PaletteEntry) (es : List PaletteEntry)
    → text_eq e.id id ≡ false
    → HasId id (e ∷ es)
    → HasId id es
HasId-other id e es other (inl same) = absurd (ground (arith, rw same at other, text_eq_refl id))
HasId-other id e es other (inr h) = h

is_entry-some :
    (id : Text) (o : Option PaletteEntry)
    → is_entry id o ≡ true
    → (e : PaletteEntry) × (o ≡ some e) × (e.id ≡ id)
unfolding is_entry
is_entry-some id none h = cc
is_entry-some id (some e) h = (e, refl, text_eq→≡ e.id id h)

HasId-match_position :
    (entries : List PaletteEntry) (id : Text) (indices : List ℕ)
    → HasId id (entries_at entries indices)
    → (i : ℕ) × (match_position entries id indices ≡ some i)
unfolding match_position is_entry entries_at cons_entry
HasId-match_position entries id [] h = absurd h
HasId-match_position entries id (x ∷ xs) h = elim (Option-cases (get_elem? entries x)) [
  | inl outside ↦
      let (j, hit) = HasId-match_position entries id xs (rw (outside, cons_entry) at h) in
      (suc j, rw (outside, hit) refl)
  | inr (e, found) ↦ elim (Bool-cases (text_eq e.id id)) [
    | inl here ↦ (0, rw (found, here) refl)
    | inr other ↦
        let (j, hit) =
          HasId-match_position entries id xs
            (HasId-other id e (entries_at entries xs) other (rw (found, cons_entry) at h)) in
        (suc j, rw (found, other, hit) refl)
  ]
]

match_position-entry :
    (entries : List PaletteEntry) (id : Text) (indices : List ℕ) (i : ℕ)
    → match_position entries id indices ≡ some i
    → (e : PaletteEntry) × (entry_at entries (get_elem? indices i) ≡ some e) × (e.id ≡ id)
unfolding match_position is_entry entry_at
match_position-entry entries id [] i h = cc
match_position-entry entries id (x ∷ xs) i h =
    elim (Bool-cases (is_entry id (get_elem? entries x))) [
      | inl here ↦
          let first : i ≡ 0 = ground (arith, here) in
          let (e, found, named) = is_entry-some id (get_elem? entries x) here in
          (e, rw first found, named)
      | inr there ↦ elim (Option-cases (match_position entries id xs)) [
        | inl missed ↦ absurd (ground (arith, there, missed))
        | inr (j, hit) ↦
            let next : i ≡ suc j = ground (arith, there, hit) in
            let (e, found, named) = match_position-entry entries id xs j hit in
            (e, rw next found, named)
      ]
    ]

module _ (to_lowercase : Text → Text) where
  -- The results of a palette that was ranked again are the entries that match its query, in the order of
  -- the ranking, by their identifiers; no match is lost, whatever the identifiers are.
  pub results_of-rerank :
      (m : PaletteModel)
      → map (λ (e : PaletteEntry). e.id) (results_of (rerank to_lowercase m))
        ≡ map
            (λ (r : SearchMatch). r.candidate.id)
            (rank_candidates to_lowercase m.query (map candidate_of m.entries))
  unfolding rerank results_of
  results_of-rerank m =
      ids-positions m.entries (rank_candidates to_lowercase m.query (map candidate_of m.entries)) (
        rank_candidates-All to_lowercase (HasEntry m.entries) m.query (map candidate_of m.entries)
          (candidate_of-HasEntry m.entries))

  -- When the entries are replaced, the selection stays on an entry with the identifier of the one that
  -- was selected, if one such entry matches the query.
  pub selected_entry-replace_entries :
      (entries : List PaletteEntry) (m : PaletteModel) (chosen : PaletteEntry)
      → selected_entry m ≡ some chosen
      → HasId chosen.id (results_of (rerank to_lowercase (record m { entries = entries })))
      → (e : PaletteEntry) × (selected_entry (replace_entries to_lowercase entries m) ≡ some e)
        × (e.id ≡ chosen.id)
  unfolding replace_entries reselect select_position results_of
  selected_entry-replace_entries entries m chosen h has =
      let m' = rerank to_lowercase (record m { entries = entries }) in
      let (i, hit) = HasId-match_position m'.entries chosen.id m'.matches has in
      let (e, found, named) = match_position-entry m'.entries chosen.id m'.matches i hit in
      (e, unfold selected_entry in rw (h, hit) found, named)
