-- ===== src/Storage/History/Rows.antt =====
-- Rows of the table of crates/storage/src/clipboard.rs found by their identifier.
use superspace.Base.{
  ◌+◌, ◌≤◌, ◌≡◌, refl, ap, inl, inr, Bool, true, false, not, Option, none, some, [], ◌∷◌, ◌++◌,
  retain, All, arith, ◌==◌, if◌then◌else◌, Bool-cases,
}
use superspace.Base.Int.{ℤ}
use superspace.Base.Text.{Text}
use superspace.Protocol.Message.{Uuid}
use superspace.Storage.Entry.{ClipboardEntry}
use superspace.Storage.History.{
  Row, ClipboardStore, has_id, row_of, pin, pin_rows, count_id, blob_of,
}

unfoldable pub find : Uuid → ClipboardStore → Option Row
find id [] = none
find id (row ∷ rows) = let rest = find id rows in if row.id == id then some row else rest

-- What is found with one more row at the end.
abbrev pub or_appended : Uuid → Row → Option Row → Option Row
or_appended j r none = if r.id == j then some r else none
or_appended j r (some x) = some x

pub find-append :
    (j : Uuid) (rows : ClipboardStore) (r : Row)
    → find j (rows ++ r ∷ []) ≡ or_appended j r (find j rows)
unfolding find
find-append j [] r = refl
find-append j (row ∷ rows) r = elim (Bool-cases (row.id == j)) [
  | inl here ↦ rw here refl
  | inr other ↦ rw other (find-append j rows r)
]

-- Whether the optional value is there.
abbrev pub is_there {ℓ} : {A : Type ℓ} → Option A → Bool
is_there none = false
is_there (some a) = true

pub has_id-find : (j : Uuid) (rows : ClipboardStore) → has_id j rows ≡ is_there (find j rows)
unfolding has_id find
has_id-find j [] = refl
has_id-find j (row ∷ rows) = ground (arith, has_id-find j rows)

abbrev pub pin_option : Uuid → Option ℤ → Option Row → Option Row
pin_option id at none = none
pin_option id at (some row) = some (record row { pinned_at = at })

pub find-pin_rows :
    (j id : Uuid) (at : Option ℤ) (rows : ClipboardStore)
    → find j (pin_rows id at rows)
      ≡ (if id == j then pin_option id at (find j rows) else find j rows)
unfolding find pin_rows pin
find-pin_rows j id at [] = ground arith
find-pin_rows j id at (row ∷ rows) = ground (arith, find-pin_rows j id at rows)

pub find-without :
    (j id : Uuid) (rows : ClipboardStore)
    → find j (retain (λ (row : Row). not (row.id == id)) rows)
      ≡ (if id == j then none else find j rows)
unfolding find
find-without j id [] = ground arith
find-without j id (row ∷ rows) = ground (arith, find-without j id rows)

find-retain-none :
    (j : Uuid) (keep : Row → Bool) (rows : ClipboardStore)
    → count_id j rows ≡ 0
    → find j (retain keep rows) ≡ none
unfolding find count_id
find-retain-none j keep [] h = refl
find-retain-none j keep (row ∷ rows) h = ground (arith, find-retain-none j keep rows)

pub find-retain :
    (j : Uuid) (keep : Row → Bool) (rows : ClipboardStore)
    → count_id j rows ≤ 1
    → find j (retain keep rows)
      ≡ elim (find j rows) [ none ↦ none | some row ↦ (if keep row then some row else none) ]
unfolding find count_id
find-retain j keep [] h = refl
find-retain j keep (row ∷ rows) h = elim (Bool-cases (row.id == j)) [
  | inl here ↦ elim (Bool-cases (keep row)) [
    | inl kept ↦ rw (here, kept) (rw here refl)
    | inr gone ↦ rw (here, gone) (find-retain-none j keep rows (ground (arith, here)))
  ]
  | inr other ↦ elim (Bool-cases (keep row)) [
    | inl kept ↦ rw (other, kept) (rw other (find-retain j keep rows (ground (arith, other))))
    | inr gone ↦ rw (other, gone) (find-retain j keep rows (ground (arith, other)))
  ]
]

abbrev pub blob_in : Option Row → Option Text
blob_in none = none
blob_in (some row) = row.blob_hash

pub blob_of-find : (j : Uuid) (rows : ClipboardStore) → blob_of j rows ≡ blob_in (find j rows)
unfolding blob_of find
blob_of-find j [] = refl
blob_of-find j (row ∷ rows) = ground (arith, blob_of-find j rows)

-- No identifier stands in two rows.
abbrev pub IsUnique : ClipboardStore → Type 0
IsUnique rows = (j : Uuid) → count_id j rows ≤ 1

pub count_id-find :
    (j : Uuid) (rows : ClipboardStore)
    → count_id j rows ≤ 1
    → (count_id j rows == 1) ≡ is_there (find j rows)
unfolding count_id find
count_id-find j [] h = ground arith
count_id-find j (row ∷ rows) h = ground (arith, count_id-find j rows)

pub count_id-append :
    (j : Uuid) (rows : ClipboardStore) (r : Row)
    → count_id j (rows ++ r ∷ []) ≡ count_id j rows + (if r.id == j then 1 else 0)
unfolding count_id
count_id-append j [] r = ground arith
count_id-append j (row ∷ rows) r = ground (arith, count_id-append j rows r)

pub count_id-none : (j : Uuid) (rows : ClipboardStore) → has_id j rows ≡ false → count_id j rows ≡ 0
unfolding count_id has_id
count_id-none j [] h = refl
count_id-none j (row ∷ rows) h = ground (arith, count_id-none j rows)

pub count_id-pin_rows :
    (j id : Uuid) (at : Option ℤ) (rows : ClipboardStore)
    → count_id j (pin_rows id at rows) ≡ count_id j rows
unfolding count_id pin_rows pin
count_id-pin_rows j id at [] = refl
count_id-pin_rows j id at (row ∷ rows) = ground (arith, count_id-pin_rows j id at rows)

pub count_id-retain-le :
    (j : Uuid) (keep : Row → Bool) (rows : ClipboardStore)
    → count_id j (retain keep rows) ≤ count_id j rows
unfolding count_id
count_id-retain-le j keep [] = omega arith
count_id-retain-le j keep (row ∷ rows) = ground (arith, count_id-retain-le j keep rows)

-- The row was written for an entry.
abbrev pub IsWritten : Row → Type 0
IsWritten row = (entry : ClipboardEntry) × (row ≡ row_of entry)

pub pin_rows-IsWritten :
    (id : Uuid) (at : Option ℤ) (rows : ClipboardStore)
    → All IsWritten rows
    → All IsWritten (pin_rows id at rows)
unfolding pin_rows pin row_of
pin_rows-IsWritten id at [] w = tt
pin_rows-IsWritten id at (row ∷ rows) w = elim (Bool-cases (row.id == id)) [
  | inl here ↦
      let (entry, is) = w.0 in
      (
        rw here (record entry { pinned_at = at }, ap (λ (r : Row). record r { pinned_at = at }) is),
        pin_rows-IsWritten id at rows w.1,
      )
  | inr other ↦ (rw other w.0, pin_rows-IsWritten id at rows w.1)
]
