-- ===== src/Storage/History/Query.antt =====
-- `query` of crates/storage/src/clipboard.rs. Rows that the ORDER BY leaves equal come in the order of
-- insertion.
use superspace.Base.{
  ℕ, Bool, true, false, not, ◌&&◌, ◌||◌, Option, none, some, List, [], ◌∷◌, ◌++◌, length, retain,
  take, min, max, leb, ◌==◌, if◌then◌else◌,
}
use Prim.Native.Nat.{Ordering}
use superspace.Base.Int.{ℤ, compare_ℤ}
use superspace.Base.Order.{then_cmp}
use superspace.Base.Result.{Result, err}
use superspace.Base.Sort.{sort_by}
use superspace.Base.Text.{Text, text_eq, trim}
use superspace.Storage.Entry.{ClipboardKind, ClipboardEntry, StorageError, database}
use superspace.Storage.Like.{like, like_pattern}
use superspace.Storage.History.{ClipboardQuery, Row, ClipboardStore, as_str, collect}

-- `pinned_at IS NULL, pinned_at ASC`
unfoldable pub compare_pins : Option ℤ → Option ℤ → Ordering
compare_pins none none = Ordering.eq
compare_pins none (some b) = Ordering.gt
compare_pins (some a) none = Ordering.lt
compare_pins (some a) (some b) = compare_ℤ a b

-- The ORDER BY of both queries.
unfoldable pub compare_rows : Row → Row → Ordering
unfolding compare_pins
compare_rows a b =
    then_cmp (compare_pins a.pinned_at b.pinned_at) (compare_ℤ b.created_at a.created_at)

-- `?2 IS NULL OR kind = ?2`
unfoldable pub is_kind : Option ClipboardKind → Row → Bool
unfolding as_str
is_kind none row = true
is_kind (some kind) row = text_eq row.kind (as_str kind)

-- A text column in a test that NULL fails.
on_text : (Text → Bool) → Option Text → Bool
on_text test none = false
on_text test (some t) = test t

-- `?1 = '%%' OR text_content LIKE ?1 ESCAPE '\'`
is_like : Text → Row → Bool
unfolding on_text
is_like pattern row = text_eq pattern (b'%' ∷ b'%' ∷ []) || on_text (like pattern) row.text_content

-- `coalesce(text_content, '')`
coalesce : Option Text → Text
coalesce none = []
coalesce (some t) = t

double_quotes : Text → Text
double_quotes [] = []
double_quotes (c ∷ s) =
    let rest = double_quotes s in if c == b'"' then b'"' ∷ b'"' ∷ rest else c ∷ rest

-- `format!("\"{}\"", text.replace('"', "\"\""))`
fts_phrase : Text → Text
unfolding double_quotes
fts_phrase t = b'"' ∷ (double_quotes t ++ b'"' ∷ [])

-- `query.limit.clamp(1, 1_000)`
unfoldable pub limit_of : ClipboardQuery → ℕ
limit_of q = min (max q.limit 1) 1_000

module _ (fts_match : Text → Text → Bool) where
  -- The test of the text: the full-text search from three characters on.
  unfoldable pub is_found : Text → Row → Bool
  unfolding is_like coalesce fts_phrase
  is_found normalized row =
      if leb 3 (length normalized)
      then fts_match (fts_phrase normalized) (coalesce row.text_content)
      else is_like (like_pattern normalized) row

  -- The WHERE of both queries.
  unfoldable pub is_selected : ClipboardQuery → Row → Bool
  unfolding is_found is_kind
  is_selected q row =
      is_found (trim q.text) row && is_kind q.kind row && (q.include_sensitive || not row.sensitive)

  unfoldable pub query :
      Bool → ClipboardQuery → ClipboardStore → Result StorageError (List ClipboardEntry)
  unfolding is_selected limit_of
  query io q rows =
      if not io
      then err database
      else collect (take (limit_of q) (sort_by compare_rows (retain (is_selected q) rows)))
