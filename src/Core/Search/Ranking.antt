-- ===== src/Core/Search/Ranking.antt =====
-- The order of the matches of crates/core/src/search.rs.
use superspace.Base.{
  ◌≡◌, inl, inr, Bool, true, false, Option, none, some, List, [], ◌∷◌, map, retain, All,
  Option-cases,
}
use mathlib.Core.List.{Perm}
use mathlib.Core.List.Perm
use superspace.Base.Sort.{IsSorted, sort_by-All, class_of}
use superspace.Base.Text.{Text}
use superspace.Core.Search.{
  SearchCandidate, SearchMatch, candidate_score, scored, match_candidates, compare_matches,
  normalize, rank_candidates,
}

abbrev is_some {ℓ} : {A : Type ℓ} → Option A → Bool
is_some none = false
is_some (some a) = true

module _ (to_lowercase : Text → Text) where
  -- The candidate has a score for the query.
  abbrev pub is_match : Text → SearchCandidate → Bool
  is_match query candidate =
      is_some (candidate_score to_lowercase query candidate.title candidate.keywords)

  -- What `rank_candidates` promises of its result.
  pub record IsRanking (query : Text) (candidates : List SearchCandidate)
      (ranked : List SearchMatch) : Type 0 where
    pub matches :
        Perm (map (λ (m : SearchMatch). m.candidate) ranked) (retain (is_match query) candidates)
    pub sorted : IsSorted (compare_matches to_lowercase) ranked
    pub stable :
        (m : SearchMatch)
        → class_of (compare_matches to_lowercase) m ranked
          ≡ class_of
              (compare_matches to_lowercase)
              m
              (match_candidates to_lowercase query candidates)

  -- What holds of every candidate holds of the candidate of every match.
  match_candidates-All :
      (P : SearchCandidate → Type 0) (query : Text) (candidates : List SearchCandidate)
      → All P candidates
      → All (λ (m : SearchMatch). P m.candidate) (match_candidates to_lowercase query candidates)
  unfolding match_candidates scored
  match_candidates-All P query [] ps = tt
  match_candidates-All P query (c ∷ cs) ps =
      elim (Option-cases (candidate_score to_lowercase query c.title c.keywords)) [
        | inl missed ↦ rw missed (match_candidates-All P query cs ps.1)
        | inr (s, hit) ↦ rw hit (ps.0, match_candidates-All P query cs ps.1)
      ]

  pub rank_candidates-All :
      (P : SearchCandidate → Type 0) (query : Text) (candidates : List SearchCandidate)
      → All P candidates
      → All (λ (m : SearchMatch). P m.candidate) (rank_candidates to_lowercase query candidates)
  unfolding rank_candidates
  rank_candidates-All P query candidates ps =
      sort_by-All (compare_matches to_lowercase) (λ (m : SearchMatch). P m.candidate)
        (match_candidates to_lowercase (normalize to_lowercase query) candidates)
        (match_candidates-All P (normalize to_lowercase query) candidates ps)
