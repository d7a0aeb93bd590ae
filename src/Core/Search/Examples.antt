-- ===== src/Core/Search/Examples.antt =====
-- crates/core/src/search.rs on examples, with the lower case of ASCII letters.
use superspace.Base.{
  ℕ, ◌+◌, ◌≡◌, ◌≢◌, ◌↔◌, ◌⊎◌, refl, true, false, none, some, List, [], ◌∷◌, map, leb, ◌&&◌,
  if◌then◌else◌,
}
use superspace.Base.Int.{pos}
use superspace.Base.Text.{Text}
use superspace.Core.Search.{
  SearchCandidate, SearchMatch, fuzzy_score, candidate_score, rank_candidates,
}
use superspace.Core.Search.Subsequence.{Within, WithinKeyword, candidate_score_iff}

abbrev to_lowercase : Text → Text
to_lowercase = map (λ c. if leb b'A' c && leb c b'Z' then c + 32 else c)

abbrev calc : Text
calc = b'C' ∷ b'a' ∷ b'l' ∷ b'c' ∷ []

abbrev cc_query : Text
cc_query = b'c' ∷ b'c' ∷ []

abbrev clip : Text
clip = b'C' ∷ b'l' ∷ b'i' ∷ b'p' ∷ []

abbrev copy : Text
copy = b'c' ∷ b'o' ∷ b'c' ∷ []

abbrev calculator : SearchCandidate
calculator = record { id = calc; title = calc; keywords = []; frequency = 3; favorite = false }

abbrev clipboard : SearchCandidate
clipboard = record { id = clip; title = clip; keywords = copy ∷ []; frequency = 9; favorite = true }

-- A gap of two characters costs 40 points.
fuzzy_score_gap : fuzzy_score cc_query (to_lowercase calc) ≡ some (pos 49_960)
unfolding fuzzy_score
fuzzy_score_gap = refl

fuzzy_score_missing : fuzzy_score cc_query (to_lowercase clip) ≡ none
unfolding fuzzy_score
fuzzy_score_missing = refl

-- The title is as good as no match, and the keyword loses 5,000 points: the favorite comes first.
rank_both :
    map
      (λ (m : SearchMatch). m.score)
      (rank_candidates to_lowercase cc_query (calculator ∷ clipboard ∷ []))
    ≡ pos 64_989 ∷ pos 49_963 ∷ []
unfolding rank_candidates superspace.Base.Sort.sort_by candidate_score superspace.Base.Text.trim
    fuzzy_score superspace.Core.Search.compare_matches
rank_both = refl

candidate_score_iff_example :
    (candidate_score to_lowercase cc_query clip (copy ∷ []) ≢ none)
    ↔ (Within cc_query (to_lowercase clip) ⊎ WithinKeyword to_lowercase cc_query (copy ∷ []))
candidate_score_iff_example = candidate_score_iff to_lowercase cc_query clip (copy ∷ [])
