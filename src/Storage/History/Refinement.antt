-- ===== src/Storage/History/Refinement.antt =====
-- The table of crates/storage/src/clipboard.rs implements a map from identifiers to entries.
use superspace.Base.{
  ℕ, ◌+◌, ◌-◌, ◌≡◌, refl, ap, sym, ◌∙◌, inl, inr, Bool, true, false, not, ◌&&◌, ◌||◌, Option, none,
  some, [], ◌∷◌, ◌++◌, length, length-retain-le, retain, All, All-append, All-retain, arith, ◌==◌,
  if◌then◌else◌, Bool-cases, Option-cases,
}
use superspace.Base.Int.{ℤ, leb_ℤ}
use superspace.Base.Result.{Result, ok, err}
use superspace.Base.Text.{Text}
use superspace.Protocol.Message.{Uuid}
use superspace.Storage.Entry.{ClipboardEntry, StorageError, invalid_entry}
use superspace.Storage.History.{
  before, Row, ClipboardStore, has_text, has_blob, has_id, row_of, insert, set_pinned, remove,
  is_stale, prune,
}
use superspace.Storage.History.Rows.{
  find, or_appended, find-append, is_there, has_id-find, pin_option, find-pin_rows, find-without,
  find-retain, blob_in, blob_of-find, IsUnique, IsWritten, pin_rows-IsWritten, count_id-find,
  count_id-append, count_id-none, count_id-pin_rows, count_id-retain-le,
}

-- The abstract history: at most one entry for each identifier.
abbrev pub History : Type 0
History = Uuid → Option ClipboardEntry

abbrev pub row_option : Option ClipboardEntry → Option Row
row_option none = none
row_option (some entry) = some (row_of entry)

-- The rows hold the entries of the history, each in one row.
pub record Represents (rows : ClipboardStore) (m : History) : Type 0 where
  pub found : (j : Uuid) → find j rows ≡ row_option (m j)
  pub unique : IsUnique rows
  pub written : All IsWritten rows

abbrev pub update : Uuid → Option ClipboardEntry → History → History
update id entry m j = if id == j then entry else m j

abbrev pub non_empty : Option Text → Bool
non_empty none = false
non_empty (some []) = false
non_empty (some (c ∷ t)) = true

abbrev pub has_content : ClipboardEntry → Bool
has_content entry = non_empty entry.text || is_there entry.blob_hash

-- The specifications of the four operations.
abbrev pub insert_spec : ClipboardEntry → History → History × Result StorageError Bool
insert_spec entry m =
    if has_content entry
    then (elim (m entry.id) [
      | none ↦ (update entry.id (some entry) m, ok true)
      | some old ↦ (m, ok false)
    ])
    else (m, err invalid_entry)

abbrev pub pinned : Option ℤ → Option ClipboardEntry → Option ClipboardEntry
pinned at none = none
pinned at (some entry) = some (record entry { pinned_at = at })

abbrev pub blob_in_entry : Option ClipboardEntry → Option Text
blob_in_entry none = none
blob_in_entry (some entry) = entry.blob_hash

-- What is left of an entry: one that is not pinned and older than the cutoff goes.
abbrev pub retained : ℤ → Option ClipboardEntry → Option ClipboardEntry
retained cutoff none = none
retained cutoff (some entry) = elim entry.pinned_at [
  | none ↦ (if leb_ℤ cutoff entry.created_at then some entry else none)
  | some at ↦ some entry
]

-- The steps on one row and on one entry agree.
is_there-row_option : (o : Option ClipboardEntry) → is_there (row_option o) ≡ is_there o
is_there-row_option none = refl
is_there-row_option (some e) = refl

pin_option-row_option :
    (id : Uuid) (at : Option ℤ) (o : Option ClipboardEntry)
    → pin_option id at (row_option o) ≡ row_option (pinned at o)
unfolding row_of
pin_option-row_option id at none = refl
pin_option-row_option id at (some e) = refl

blob_in-row_option : (o : Option ClipboardEntry) → blob_in (row_option o) ≡ blob_in_entry o
unfolding row_of
blob_in-row_option none = refl
blob_in-row_option (some e) = refl

abbrev keep_option : (Row → Bool) → Option Row → Option Row
keep_option keep none = none
keep_option keep (some row) = if keep row then some row else none

fresh_row : ℤ → Row → Bool
fresh_row cutoff row = not (is_stale cutoff row)

keep_option-row_option :
    (cutoff : ℤ) (o : Option ClipboardEntry)
    → keep_option (fresh_row cutoff) (row_option o) ≡ row_option (retained cutoff o)
unfolding row_of fresh_row is_stale
keep_option-row_option cutoff none = refl
keep_option-row_option cutoff (some e) = ground arith

or_appended-row_option :
    (j : Uuid) (r : Row) (o : Option ClipboardEntry)
    → (r.id == j) ≡ false
    → or_appended j r (row_option o) ≡ row_option o
or_appended-row_option j r none h = rw h refl
or_appended-row_option j r (some e) h = refl

content_options :
    (t b : Option Text) → (not (has_text t) && not (has_blob b)) ≡ not (non_empty t || is_there b)
unfolding has_text has_blob
content_options none none = refl
content_options none (some h) = refl
content_options (some []) none = refl
content_options (some []) (some h) = refl
content_options (some (c ∷ t)) b = refl

content_test :
    (entry : ClipboardEntry)
    → (not (has_text entry.text) && not (has_blob entry.blob_hash)) ≡ not (has_content entry)
content_test entry = content_options entry.text entry.blob_hash

module _ (rows : ClipboardStore) (m : History) (r : Represents rows m) where
  has_id-Represents : (j : Uuid) → has_id j rows ≡ is_there (m j)
  has_id-Represents j = has_id-find j rows ∙ ap is_there (r.found j) ∙ is_there-row_option (m j)

  inserted-Represents :
      (entry : ClipboardEntry)
      → m entry.id ≡ none
      → Represents (rows ++ row_of entry ∷ []) (update entry.id (some entry) m)
  unfolding row_of
  inserted-Represents entry new = record {
    found = λ j. elim (Bool-cases (entry.id == j)) [
      | inl here ↦
          let same : entry.id ≡ j = ground arith in
          let gone : m j ≡ none = rw (← same) new in
          let missing : find j rows ≡ none = r.found j ∙ ap row_option gone in
          find-append j rows (row_of entry) ∙ rw (missing, here) refl
      | inr other ↦
          find-append j rows (row_of entry)
          ∙ rw (r.found j, other) (or_appended-row_option j (row_of entry) (m j) other)
    ];
    unique = λ j.
        let old : has_id entry.id rows ≡ false = has_id-Represents entry.id ∙ ap is_there new in
        let none_there = count_id-none entry.id rows old in
        ground (arith, count_id-append j rows (row_of entry), none_there, r.unique j);
    written = All-append IsWritten rows (row_of entry ∷ []) r.written ((entry, refl), tt);
  }

  -- `insert` adds an entry with content once.
  insert-Represents :
      (entry : ClipboardEntry)
      → Represents (insert true entry rows).0 (insert_spec entry m).0
        × ((insert true entry rows).1 ≡ (insert_spec entry m).1)
  unfolding insert
  insert-Represents entry = elim (Bool-cases (has_content entry)) [
    | inr empty ↦ rw (content_test entry, empty) (r, refl)
    | inl full ↦ elim (Option-cases (m entry.id)) [
      | inl new ↦
          rw (content_test entry, full, has_id-Represents entry.id, new)
            (inserted-Represents entry new, refl)
      | inr (old, present) ↦
          rw (content_test entry, full, has_id-Represents entry.id, present) (r, refl)
    ]
  ]

  pinned_found :
      (id : Uuid) (at : Option ℤ) (j : Uuid)
      → (if id == j then pin_option id at (find j rows) else find j rows)
        ≡ row_option (update id (pinned at (m id)) m j)
  pinned_found id at j = elim (Bool-cases (id == j)) [
    | inl here ↦
        let same : id ≡ j = ground arith in
        rw here (
          ap (pin_option id at) (r.found j)
          ∙ pin_option-row_option id at (m j)
          ∙ ap (λ k. row_option (pinned at (m k))) (sym same))
    | inr other ↦ rw other (r.found j)
  ]

  removed_found :
      (id j : Uuid) → (if id == j then none else find j rows) ≡ row_option (update id none m j)
  removed_found id j = elim (Bool-cases (id == j)) [
    | inl here ↦ rw here refl
    | inr other ↦ rw other (r.found j)
  ]

  set_pinned-Represents :
      (id : Uuid) (at : Option ℤ)
      → Represents (set_pinned true id at rows).0 (update id (pinned at (m id)) m)
        × ((set_pinned true id at rows).1 ≡ ok (is_there (m id)))
  unfolding set_pinned
  set_pinned-Represents id at = (
    record {
      found = λ j. find-pin_rows j id at rows ∙ pinned_found id at j;
      unique = λ j. omega (arith, count_id-pin_rows j id at rows, r.unique j);
      written = pin_rows-IsWritten id at rows r.written;
    },
    ap ok (
        count_id-find id rows (r.unique id)
        ∙ ap is_there (r.found id)
        ∙ is_there-row_option (m id)),
  )

  remove-Represents :
      (id : Uuid)
      → Represents (remove true true id rows).0 (update id none m)
        × ((remove true true id rows).1 ≡ ok (blob_in_entry (m id)))
  unfolding remove
  remove-Represents id = (
    record {
      found = λ j. find-without j id rows ∙ removed_found id j;
      unique = λ j.
          omega (arith, count_id-retain-le j (λ (row : Row). not (row.id == id)) rows, r.unique j);
      written = All-retain IsWritten (λ (row : Row). not (row.id == id)) rows r.written;
    },
    ap ok (blob_of-find id rows ∙ ap blob_in (r.found id) ∙ blob_in-row_option (m id)),
  )

  prune-Represents :
      (cutoff : ℤ)
      → Represents (prune true (before cutoff) rows).0 (λ j. retained cutoff (m j))
        × ((n : ℕ) × ((prune true (before cutoff) rows).1 ≡ ok n)
            × (length (prune true (before cutoff) rows).0 + n ≡ length rows))
  unfolding prune fresh_row
  prune-Represents cutoff = (
    record {
      found = λ j.
          find-retain j (fresh_row cutoff) rows (r.unique j)
          ∙ ap (keep_option (fresh_row cutoff)) (r.found j)
          ∙ keep_option-row_option cutoff (m j);
      unique = λ j. omega (arith, count_id-retain-le j (fresh_row cutoff) rows, r.unique j);
      written = All-retain IsWritten (fresh_row cutoff) rows r.written;
    },
    (
      length rows - length (retain (fresh_row cutoff) rows),
      refl,
      omega (arith, length-retain-le (fresh_row cutoff) rows),
    ),
  )

-- The table implements a map with one entry for each identifier. When SQLite carries the statements out,
-- `insert` adds an entry with content unless its identifier is there, and says so; `set_pinned` changes
-- the pin of an entry, and says whether there is one; `remove` gives the removed entry's blob; `prune`
-- keeps the pinned entries and those that are not older than the cutoff, and counts the others.
pub store-Represents :
    (rows : ClipboardStore) (m : History)
    → Represents rows m
    → ((entry : ClipboardEntry)
        → Represents (insert true entry rows).0 (insert_spec entry m).0
          × ((insert true entry rows).1 ≡ (insert_spec entry m).1))
      × ((id : Uuid) (at : Option ℤ)
          → Represents (set_pinned true id at rows).0 (update id (pinned at (m id)) m)
            × ((set_pinned true id at rows).1 ≡ ok (is_there (m id))))
      × ((id : Uuid)
          → Represents (remove true true id rows).0 (update id none m)
            × ((remove true true id rows).1 ≡ ok (blob_in_entry (m id))))
      × ((cutoff : ℤ)
          → Represents (prune true (before cutoff) rows).0 (λ j. retained cutoff (m j))
            × ((n : ℕ) × ((prune true (before cutoff) rows).1 ≡ ok n)
                × (length (prune true (before cutoff) rows).0 + n ≡ length rows)))
store-Represents rows m r = (
  insert-Represents rows m r,
  set_pinned-Represents rows m r,
  remove-Represents rows m r,
  prune-Represents rows m r,
)
