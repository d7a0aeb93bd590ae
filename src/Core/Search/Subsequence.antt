-- ===== src/Core/Search/Subsequence.antt =====
-- A query matches in crates/core/src/search.rs where its characters stand in the text in their order.
use superspace.Base.{
  ℕ, ◌+◌, ◌-◌, ltb, ◌≡◌, refl, ◌≢◌, ◌↔◌, ◌⊎◌, inl, inr, true, false, Option, none, some, List, [],
  ◌∷◌, arith, ◌==◌, Bool-cases, Option-cases, if◌then◌else◌,
}
use superspace.Base.Int.{ℤ}
use superspace.Base.Text.{Text, text_eq, starts_with, text_eq→≡}
use superspace.Core.Search.{
  get_or_insert, fuzzy_loop, fuzzy_score, candidate_score, keyword_score, or_keywords, max_score,
}

-- The characters of the query stand in the text, in their order.
abbrev pub Within : Text → Text → Type 0
Within [] text = Unit
Within (q ∷ query) [] = ⊥
Within (q ∷ query) (c ∷ text) = ((c ≡ q) × Within query text) ⊎ Within (q ∷ query) text

Within-skip : (c : ℕ) (query text : Text) → Within query text → Within query (c ∷ text)
Within-skip c [] text h = tt
Within-skip c (q ∷ query) text h = inr h

Within-tail : (q : ℕ) (query text : Text) → Within (q ∷ query) text → Within query text
Within-tail q query [] h = absurd h
Within-tail q query (c ∷ text) (inl h) = Within-skip c query text h.1
Within-tail q query (c ∷ text) (inr h) = Within-skip c query text (Within-tail q query text h)

Within-refl : (text : Text) → Within text text
Within-refl [] = tt
Within-refl (c ∷ text) = inl (refl, Within-refl text)

starts_with-Within : (text query : Text) → starts_with text query ≡ true → Within query text
starts_with-Within text [] h = tt
starts_with-Within [] (q ∷ query) h = cc
starts_with-Within (c ∷ text) (q ∷ query) h =
    inl (ground arith, starts_with-Within text query (ground arith))

fuzzy_loop-Within :
    (text query : Text) (expected : ℕ) (first : Option ℕ) (last gaps matched index : ℕ) (score : ℤ)
    → fuzzy_loop expected query first last gaps matched index text ≡ some score
    → Within (expected ∷ query) text
unfolding fuzzy_loop
fuzzy_loop-Within [] query expected first last gaps matched index score h = cc
fuzzy_loop-Within (c ∷ text) [] expected first last gaps matched index score h =
    elim (Bool-cases (c == expected)) [
      | inl hit ↦ inl (ground arith, tt)
      | inr miss ↦ inr (
          fuzzy_loop-Within text [] expected first last gaps matched (index + 1) score
            (ground arith))
    ]
fuzzy_loop-Within (c ∷ text) (next ∷ rest) expected first last gaps matched index score h =
    elim (Bool-cases (c == expected)) [
      | inl hit ↦ inl (
        ground arith,
        fuzzy_loop-Within text rest next (some (get_or_insert first index)) index
            (if ltb 0 matched then gaps + (index - (last + 1)) else gaps) (matched + 1) (index + 1)
            score (ground arith),
      )
      | inr miss ↦ inr (
          fuzzy_loop-Within text (next ∷ rest) expected first last gaps matched (index + 1) score
            (ground arith))
    ]

after_hit :
    (c expected : ℕ) (query text : Text) → Within (expected ∷ query) (c ∷ text) → Within query text
after_hit c expected query text (inl h) = h.1
after_hit c expected query text (inr h) = Within-tail expected query text h

after_miss :
    (c expected : ℕ) (query text : Text)
    → (c == expected) ≡ false
    → Within (expected ∷ query) (c ∷ text)
    → Within (expected ∷ query) text
after_miss c expected query text m (inl h) = absurd (ground arith)
after_miss c expected query text m (inr h) = h

Within-fuzzy_loop :
    (text query : Text) (expected : ℕ) (first : Option ℕ) (last gaps matched index : ℕ)
    → Within (expected ∷ query) text
    → fuzzy_loop expected query first last gaps matched index text ≢ none
unfolding fuzzy_loop
Within-fuzzy_loop [] query expected first last gaps matched index w = absurd w
Within-fuzzy_loop (c ∷ text) [] expected first last gaps matched index w =
    elim (Bool-cases (c == expected)) [
      | inl hit ↦ λ e. ground arith
      | inr miss ↦
          ground (arith, Within-fuzzy_loop text [] expected first last gaps matched (index + 1))
    ]
Within-fuzzy_loop (c ∷ text) (next ∷ rest) expected first last gaps matched index w =
    elim (Bool-cases (c == expected)) [
      | inl hit ↦
          rw (hit, fuzzy_loop)
            (Within-fuzzy_loop text rest next (some (get_or_insert first index)) index
              (if ltb 0 matched then gaps + (index - (last + 1)) else gaps) (matched + 1)
              (index + 1) (after_hit c expected (next ∷ rest) text w))
      | inr miss ↦
          rw (miss, fuzzy_loop)
            (Within-fuzzy_loop text (next ∷ rest) expected first last gaps matched (index + 1)
              (after_miss c expected (next ∷ rest) text miss w))
    ]

-- A query, whether or not it is empty, and its score.
fuzzy_score-Within :
    (query text : Text) (score : ℤ) → fuzzy_score query text ≡ some score → Within query text
unfolding fuzzy_score
fuzzy_score-Within [] text score h = tt
fuzzy_score-Within (q ∷ query) text score h = fuzzy_loop-Within text query q none 0 0 0 0 score h

Within-fuzzy_score :
    (query text : Text) → query ≢ [] → Within query text → fuzzy_score query text ≢ none
unfolding fuzzy_score
Within-fuzzy_score [] text n w = absurd (n refl)
Within-fuzzy_score (q ∷ query) text n w = Within-fuzzy_loop text query q none 0 0 0 0 w

module _ (to_lowercase : Text → Text) where
  -- The query stands in one of the keywords.
  abbrev pub WithinKeyword : Text → List Text → Type 0
  WithinKeyword query [] = ⊥
  WithinKeyword query (keyword ∷ keywords) =
      Within query (to_lowercase keyword) ⊎ WithinKeyword query keywords

  keyword_score-Within :
      (query : Text) (keywords : List Text) (score : ℤ)
      → keyword_score to_lowercase query keywords ≡ some score
      → WithinKeyword query keywords
  unfolding keyword_score max_score
  keyword_score-Within query [] score h = cc
  keyword_score-Within query (k ∷ ks) score h =
      elim (Option-cases (fuzzy_score query (to_lowercase k))) [
        | inl missed ↦ inr (keyword_score-Within query ks score (ground (arith, missed)))
        | inr (found, hit) ↦ inl (fuzzy_score-Within query (to_lowercase k) found hit)
      ]

  Within-keyword_score :
      (query : Text) (keywords : List Text)
      → query ≢ []
      → WithinKeyword query keywords
      → keyword_score to_lowercase query keywords ≢ none
  unfolding keyword_score max_score
  Within-keyword_score query [] n w = absurd w
  Within-keyword_score query (k ∷ ks) n (inl w) =
      ground (arith, Within-fuzzy_score query (to_lowercase k) n w)
  Within-keyword_score query (k ∷ ks) n (inr w) = ground (arith, Within-keyword_score query ks n w)

  candidate_score-Within :
      (query title : Text) (keywords : List Text)
      → candidate_score to_lowercase query title keywords ≢ none
      → Within query (to_lowercase title) ⊎ WithinKeyword query keywords
  unfolding candidate_score or_keywords
  candidate_score-Within [] title keywords h = inl tt
  candidate_score-Within (q ∷ qs) title keywords h =
      let query = q ∷ qs in
      let lower = to_lowercase title in
      elim (Bool-cases (text_eq lower query)) [
        | inl exact ↦ inl (rw (text_eq→≡ lower query exact) (Within-refl query))
        | inr other ↦ elim (Bool-cases (starts_with lower query)) [
          | inl prefix ↦ inl (starts_with-Within lower query prefix)
          | inr inside ↦ elim (Option-cases (fuzzy_score query lower)) [
            | inr (s, hit) ↦ inl (fuzzy_score-Within query lower s hit)
            | inl missed ↦ elim (Option-cases (keyword_score to_lowercase query keywords)) [
              | inr (s, hit) ↦ inr (keyword_score-Within query keywords s hit)
              | inl no_keyword ↦ absurd (ground (arith, other, inside, missed, no_keyword, h))
            ]
          ]
        ]
      ]

  -- A candidate is shown for a query exactly when the characters of the query stand in their order in
  -- its title or in one of its keywords, all in lower case.
  pub candidate_score_iff :
      (query title : Text) (keywords : List Text)
      → (candidate_score to_lowercase query title keywords ≢ none)
        ↔ (Within query (to_lowercase title) ⊎ WithinKeyword query keywords)
  unfolding candidate_score or_keywords
  candidate_score_iff [] title keywords = (λ h. inl tt, λ w e. cc)
  candidate_score_iff (q ∷ qs) title keywords = (
    candidate_score-Within (q ∷ qs) title keywords,
    λ w. elim w [
      | inl here ↦ ground (arith, Within-fuzzy_score (q ∷ qs) (to_lowercase title) (λ e. cc) here)
      | inr there ↦ ground (arith, Within-keyword_score (q ∷ qs) keywords (λ e. cc) there)
    ],
  )
