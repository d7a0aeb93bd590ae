-- ===== src/Core/Search.antt =====
-- crates/core/src/search.rs: which launcher entries match a query and in which order. The lower case of
-- a text is a parameter. A text has fewer than 2 ^ 55 characters, so that no i64 overflows.
pub mod Subsequence
pub mod Ranking
mod Examples
use superspace.Base.{
  ℕ, suc, ◌+◌, ◌-◌, ◌*◌, min, Bool, true, false, Option, none, some, List, [], ◌∷◌, length, ltb,
  ◌==◌, if◌then◌else◌,
}
use Prim.Native.Nat.{Ordering}
use superspace.Base.Int.{ℤ, pos, sub_ℕ, ◌+ℤ◌, ◌-ℤ◌, compare_ℤ, leb_ℤ}
use superspace.Base.Order.{then_cmp}
use superspace.Base.Sort.{sort_by}
use superspace.Base.Text.{Text, as_bytes, text_eq, trim, is_empty, starts_with, compare_text}

pub record SearchCandidate : Type 0 where
  pub id : Text
  pub title : Text
  pub keywords : List Text
  pub frequency : ℕ
  pub favorite : Bool

pub record SearchMatch : Type 0 where
  pub candidate : SearchCandidate
  pub score : ℤ

-- `Option::get_or_insert`
abbrev get_or_insert : Option ℕ → ℕ → ℕ
get_or_insert none n = n
get_or_insert (some m) n = m

-- `50_000 - start * 100 - gap_penalty * 20`
final_score : ℕ → ℕ → ℤ
final_score start gaps = sub_ℕ 50_000 (start * 100 + gaps * 20)

-- The loop, at a character that is expected, with the rest of the query.
fuzzy_loop : ℕ → Text → Option ℕ → ℕ → ℕ → ℕ → ℕ → Text → Option ℤ
unfolding final_score
fuzzy_loop expected query_chars first last gaps matched index [] = none
fuzzy_loop expected query_chars first last gaps matched index (character ∷ text) =
    let start = get_or_insert first index in
    let gaps' = if ltb 0 matched then gaps + (index - (last + 1)) else gaps in
    elim (character == expected) [
      | true ↦ elim query_chars [
        | [] ↦ some (final_score start gaps')
        | next ∷ rest ↦ fuzzy_loop next rest (some start) index gaps' (matched + 1) (index + 1) text
      ]
      | false ↦ fuzzy_loop expected query_chars first last gaps matched (index + 1) text
    ]

unfoldable pub fuzzy_score : Text → Text → Option ℤ
unfolding fuzzy_loop
fuzzy_score [] text = none
fuzzy_score (expected ∷ query_chars) text = fuzzy_loop expected query_chars none 0 0 0 0 text

-- `Iterator::max` of the scores that there are.
max_score : Option ℤ → Option ℤ → Option ℤ
max_score none best = best
max_score (some score) none = some score
max_score (some score) (some best) = if leb_ℤ score best then some best else some score

module _ (to_lowercase : Text → Text) where
  keyword_score : Text → List Text → Option ℤ
  unfolding max_score
  keyword_score query [] = none
  keyword_score query (keyword ∷ keywords) =
      max_score (fuzzy_score query (to_lowercase keyword)) (keyword_score query keywords)

  -- `.or_else(...)`
  or_keywords : Option ℤ → Option ℤ → Option ℤ
  or_keywords (some score) keywords = some score
  or_keywords none none = none
  or_keywords none (some best) = some (best -ℤ pos 5_000)

  unfoldable pub candidate_score : Text → Text → List Text → Option ℤ
  unfolding keyword_score or_keywords
  candidate_score query original keywords =
      let title = to_lowercase original in
      if is_empty query
      then some (pos 0)
      else if text_eq title query
      then some (pos 100_000)
      else if starts_with title query
      then some (sub_ℕ 80_000 (length (as_bytes title)))
      else or_keywords (fuzzy_score query title) (keyword_score query keywords)

  -- The usage signals of a candidate on top of its text score.
  boost : SearchCandidate → ℤ → ℤ
  boost candidate text_score =
      text_score
      +ℤ pos (min candidate.frequency 10_000)
      +ℤ (if candidate.favorite then pos 20_000 else pos 0)

  scored : SearchCandidate → Option ℤ → List SearchMatch → List SearchMatch
  unfolding boost
  scored candidate none matches = matches
  scored candidate (some text_score) matches =
      record { candidate = candidate; score = boost candidate text_score } ∷ matches

  -- The `filter_map`.
  pub match_candidates : Text → List SearchCandidate → List SearchMatch
  unfolding scored
  match_candidates query [] = []
  match_candidates query (candidate ∷ candidates) =
      scored candidate (candidate_score query candidate.title candidate.keywords)
        (match_candidates query candidates)

  -- The comparison of `sort_by`: the larger score first, then the title.
  unfoldable pub compare_matches : SearchMatch → SearchMatch → Ordering
  compare_matches left right =
      then_cmp (compare_ℤ right.score left.score)
        (compare_text (to_lowercase left.candidate.title) (to_lowercase right.candidate.title))

  -- `query.trim().to_lowercase()`
  pub normalize : Text → Text
  normalize query = to_lowercase (trim query)

  unfoldable pub rank_candidates : Text → List SearchCandidate → List SearchMatch
  unfolding match_candidates normalize
  rank_candidates query candidates =
      sort_by compare_matches (match_candidates (normalize query) candidates)
