-- ===== src/Storage/Like.antt =====
-- The operator `LIKE ... ESCAPE '\'` of SQLite, and the pattern that query_recent of
-- crates/storage/src/clipboard.rs builds for it.
use superspace.Base.{
  ℕ, ◌≡◌, refl, ap, Bool, true, false, ◌&&◌, ◌||◌, Option, none, some, List, [], ◌∷◌, ◌++◌, map,
  All, arith, leb, ◌==◌, ◌+◌, if◌then◌else◌, Bool-cases, inl, inr,
}
use superspace.Base.Text.{Text, is_empty}

-- What a character of a pattern stands for.
pub data Token : Type 0 where
  any one : Token
  literal : ℕ → Token

token_of : ℕ → Token
token_of c = if c == b'%' then any else if c == b'_' then one else literal c

cons_token : Token → Option (List Token) → Option (List Token)
cons_token t none = none
cons_token t (some ts) = some (t ∷ ts)

-- The tokens of a pattern, after an escape character or not; none, if it ends with an escape.
tokens : Bool → Text → Option (List Token)
unfolding cons_token token_of
tokens false [] = some []
tokens true [] = none
tokens true (c ∷ pattern) = cons_token (literal c) (tokens false pattern)
tokens false (c ∷ pattern) =
    let rest = tokens (c == b'\\') pattern in
    if c == b'\\' then rest else cons_token (token_of c) rest

-- LIKE takes ASCII letters of both cases as equal.
abbrev fold_case : ℕ → ℕ
fold_case c = if leb b'A' c && leb c b'Z' then c + 32 else c

abbrev pub same_letter : ℕ → ℕ → Bool
same_letter a b = fold_case a == fold_case b

-- The test holds of the text or of what is left of it after some characters.
abbrev pub any_suffix : (Text → Bool) → Text → Bool
any_suffix test [] = test []
any_suffix test (c ∷ s) = test (c ∷ s) || any_suffix test s

like_tokens : List Token → Text → Bool
like_tokens [] s = is_empty s
like_tokens (any ∷ ts) s = any_suffix (like_tokens ts) s
like_tokens (one ∷ ts) [] = false
like_tokens (one ∷ ts) (c ∷ s) = like_tokens ts s
like_tokens (literal a ∷ ts) [] = false
like_tokens (literal a ∷ ts) (c ∷ s) = same_letter a c && like_tokens ts s

like_parsed : Option (List Token) → Text → Bool
unfolding like_tokens
like_parsed none s = false
like_parsed (some ts) s = like_tokens ts s

unfoldable pub like : Text → Text → Bool
unfolding like_parsed tokens
like pattern s = like_parsed (tokens false pattern) s

-- `text.replace(c, "\\c")`
replace_escaped : ℕ → Text → Text
replace_escaped c [] = []
replace_escaped c (d ∷ s) =
    let rest = replace_escaped c s in if d == c then b'\\' ∷ d ∷ rest else d ∷ rest

-- `format!("%{}%", text.replace('%', "\\%").replace('_', "\\_"))`
unfoldable pub like_pattern : Text → Text
unfolding replace_escaped
like_pattern s = b'%' ∷ (replace_escaped b'_' (replace_escaped b'%' s) ++ b'%' ∷ [])

-- The text begins with the query, ASCII letters of both cases being equal.
abbrev pub begins_with : Text → Text → Bool
begins_with [] s = true
begins_with (q ∷ query) [] = false
begins_with (q ∷ query) (c ∷ s) = same_letter q c && begins_with query s

-- The text contains the query.
abbrev pub contains_text : Text → Text → Bool
contains_text query = any_suffix (begins_with query)

literals : Text → List Token
literals = map literal

any_suffix_empty : (s : Text) → any_suffix is_empty s ≡ true
any_suffix_empty [] = refl
any_suffix_empty (c ∷ s) = any_suffix_empty s

like_tokens-literals :
    (query s : Text) → like_tokens (literals query ++ any ∷ []) s ≡ begins_with query s
unfolding like_tokens literals
like_tokens-literals [] s = any_suffix_empty s
like_tokens-literals (q ∷ query) [] = refl
like_tokens-literals (q ∷ query) (c ∷ s) =
    ap (λ b. same_letter q c && b) (like_tokens-literals query s)

any_suffix-ext :
    (f g : Text → Bool) → ((s : Text) → f s ≡ g s) → (s : Text) → any_suffix f s ≡ any_suffix g s
any_suffix-ext f g h [] = h []
any_suffix-ext f g h (c ∷ s) = ground (arith, h (c ∷ s), any_suffix-ext f g h s)

-- No character is the escape character.
abbrev pub HasNoEscape : Text → Type 0
HasNoEscape = All (λ c. (c == b'\\') ≡ false)

tokens-escaped :
    (query : Text)
    → HasNoEscape query
    → tokens false (replace_escaped b'_' (replace_escaped b'%' query) ++ b'%' ∷ [])
      ≡ some (literals query ++ any ∷ [])
unfolding tokens replace_escaped literals cons_token token_of
tokens-escaped [] h = refl
tokens-escaped (q ∷ query) h =
    let rest = tokens-escaped query h.1 in
    elim (Bool-cases (q == b'%')) [
      | inl percent ↦ let e : q ≡ b'%' = ground arith in rw (e, rest) refl
      | inr other ↦ elim (Bool-cases (q == b'_')) [
        | inl underscore ↦ let e : q ≡ b'_' = ground arith in rw (e, rest) refl
        | inr plain ↦ rw (other, plain, h.0, rest, other, plain) refl
      ]
    ]

-- A text is found by the pattern of a query exactly if it contains the query, ASCII letters of both
-- cases being equal and % and _ standing for themselves; the query has no backslash.
pub like-like_pattern :
    (query s : Text) → HasNoEscape query → like (like_pattern query) s ≡ contains_text query s
unfolding like like_pattern tokens like_parsed
like-like_pattern query s h = rw (tokens-escaped query h) (
    any_suffix-ext (like_tokens (literals query ++ any ∷ [])) (begins_with query)
      (like_tokens-literals query) s)
