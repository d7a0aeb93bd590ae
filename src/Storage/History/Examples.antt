-- ===== src/Storage/History/Examples.antt =====
-- ClipboardStore of crates/storage/src/clipboard.rs on examples. The full-text search finds nothing.
use superspace.Base.{
  ℕ, ◌≡◌, ◌+◌, refl, Bool, true, false, Option, none, some, [], ◌∷◌, length, map, arith,
}
use superspace.Base.Int.{ℤ, pos}
use superspace.Base.Result.{ok, err}
use superspace.Base.Text.{Text}
use superspace.Protocol.Message.{Uuid}
use superspace.Storage.Entry.{ClipboardKind, ClipboardEntry, invalid_entry}
use superspace.Storage.Like.{like, like_pattern, contains_text, like-like_pattern}
use superspace.Storage.History.{
  ClipboardQuery, Row, ClipboardStore, before, row_of, insert, set_pinned, remove, prune, count,
}
use superspace.Storage.History.Query.{query}
use superspace.Storage.History.Rows.{is_there}
use superspace.Storage.History.Refinement.{
  History, Represents, update, pinned, retained, blob_in_entry, insert_spec, store-Represents,
}

abbrev percent : Text
percent = b'1' ∷ b'%' ∷ []

abbrev plain : Text
plain = b'1' ∷ b'X' ∷ []

abbrev entry_of : Uuid → Text → ℕ → ClipboardEntry
entry_of id t at = record {
  id = id;
  kind = ClipboardKind.text;
  text = some t;
  blob_hash = none;
  source = record { application_id = none; device_id = none };
  created_at = pos at;
  pinned_at = none;
  sensitive = false;
}

abbrev old : ClipboardEntry
old = entry_of 1 percent 10

abbrev new : ClipboardEntry
new = entry_of 2 plain 20

abbrev secret : ClipboardEntry
secret = record (entry_of 3 plain 30) { sensitive = true }

abbrev stored : ClipboardStore
stored = row_of old ∷ row_of new ∷ row_of secret ∷ []

abbrev no_fts : Text → Text → Bool
no_fts phrase t = false

abbrev asking : Text → ClipboardQuery
asking t = record { text = t; kind = none; include_sensitive = false; limit = 20 }

-- The newest entry comes first, and the sensitive one is concealed.
query_all : query no_fts true (asking []) stored ≡ ok (new ∷ old ∷ [])
unfolding query row_of superspace.Storage.History.collect superspace.Base.Sort.sort_by
    superspace.Base.Text.trim like_pattern superspace.Storage.History.Query.compare_rows
query_all = refl

query_percent : query no_fts true (asking (b'%' ∷ [])) stored ≡ ok (old ∷ [])
unfolding query row_of superspace.Storage.History.collect superspace.Base.Sort.sort_by
    superspace.Base.Text.trim like_pattern like
query_percent = refl

query_fold_case : query no_fts true (asking (b'x' ∷ [])) stored ≡ ok (new ∷ [])
unfolding query row_of superspace.Storage.History.collect superspace.Base.Sort.sort_by
    superspace.Base.Text.trim like_pattern like
query_fold_case = refl

-- A backslash finds the text that ends with a percent sign, and not the one that has a backslash.
backslash_finds_percent : like (like_pattern (b'\\' ∷ [])) percent ≡ true
unfolding like like_pattern
backslash_finds_percent = refl

backslash_misses_backslash : like (like_pattern (b'\\' ∷ [])) (b'a' ∷ b'\\' ∷ b'b' ∷ []) ≡ false
unfolding like like_pattern
backslash_misses_backslash = refl

like-like_pattern_example : like (like_pattern (b'%' ∷ [])) plain ≡ contains_text (b'%' ∷ []) plain
like-like_pattern_example = like-like_pattern (b'%' ∷ []) plain (refl, tt)

insert_replayed : (insert true old stored).1 ≡ ok false
unfolding insert row_of
insert_replayed = refl

insert_empty : (insert true (record old { text = some [] }) stored).1 ≡ err invalid_entry
unfolding insert
insert_empty = refl

prune_pinned : (prune true (before (pos 15)) (set_pinned true 1 (some (pos 5)) stored).0).1 ≡ ok 0
unfolding prune set_pinned row_of
prune_pinned = refl

prune_old : (prune true (before (pos 15)) stored).1 ≡ ok 1
unfolding prune row_of
prune_old = refl

abbrev nothing : History
nothing j = none

abbrev held : History
held = update 1 (some old) (update 2 (some new) (update 3 (some secret) nothing))

held-Represents : Represents stored held
unfolding superspace.Storage.History.Rows.find superspace.Storage.History.count_id row_of
held-Represents = record {
  found = λ j. ground arith;
  unique = λ j. ground arith;
  written = ((old, refl), ((new, refl), ((secret, refl), tt)));
}

store-Represents_example :
    ((entry : ClipboardEntry)
      → Represents (insert true entry stored).0 (insert_spec entry held).0
        × ((insert true entry stored).1 ≡ (insert_spec entry held).1))
    × ((id : Uuid) (at : Option ℤ)
        → Represents (set_pinned true id at stored).0 (update id (pinned at (held id)) held)
          × ((set_pinned true id at stored).1 ≡ ok (is_there (held id))))
    × ((id : Uuid)
        → Represents (remove true true id stored).0 (update id none held)
          × ((remove true true id stored).1 ≡ ok (blob_in_entry (held id))))
    × ((cutoff : ℤ)
        → Represents (prune true (before cutoff) stored).0 (λ j. retained cutoff (held j))
          × ((n : ℕ) × ((prune true (before cutoff) stored).1 ≡ ok n)
              × (length (prune true (before cutoff) stored).0 + n ≡ 3)))
store-Represents_example = store-Represents stored held held-Represents
