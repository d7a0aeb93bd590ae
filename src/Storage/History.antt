-- ===== src/Storage/History.antt =====
-- crates/storage/src/clipboard.rs: ClipboardStore on the rows of its table, in the order of insertion. The
-- statements stand as what they do to the rows; whether SQLite carries one out is an argument, and so
-- is the full-text match (FTS5). An identifier is its number, in the text form that the table keeps.
pub mod Query
mod Rows
pub mod Refinement
pub mod Page
mod Examples
use superspace.Base.{
  ℕ, suc, ◌+◌, ◌-◌, Bool, true, false, not, ◌&&◌, ◌||◌, Option, none, some, List, [], ◌∷◌, ◌++◌,
  length, retain, take, min, max, leb, ltb, ◌==◌, if◌then◌else◌,
}
use Prim.Native.Nat.{Ordering}
use superspace.Base.Int.{ℤ, compare_ℤ, leb_ℤ}
use superspace.Base.Order.{then_cmp}
use superspace.Base.Result.{Result, ok, err, ◌>>=◌, ok_or}
use superspace.Base.Sort.{sort_by}
use superspace.Base.Text.{Text, text_eq, trim, is_empty}
use superspace.Protocol.Message.{Uuid}
use superspace.Storage.Entry.{ClipboardKind, ClipboardEntry, StorageError, database, invalid_entry}
use superspace.Storage.Like.{like, like_pattern}

-- `ClipboardKind::as_str`
pub as_str : ClipboardKind → Text
as_str ClipboardKind.text = b't' ∷ b'e' ∷ b'x' ∷ b't' ∷ []
as_str ClipboardKind.html = b'h' ∷ b't' ∷ b'm' ∷ b'l' ∷ []
as_str ClipboardKind.rtf = b'r' ∷ b't' ∷ b'f' ∷ []
as_str ClipboardKind.image = b'i' ∷ b'm' ∷ b'a' ∷ b'g' ∷ b'e' ∷ []
as_str ClipboardKind.files = b'f' ∷ b'i' ∷ b'l' ∷ b'e' ∷ b's' ∷ []

-- `ClipboardKind::parse`
pub parse_kind : Text → Option ClipboardKind
unfolding as_str
parse_kind value =
    if text_eq value (as_str ClipboardKind.text)
    then some ClipboardKind.text
    else if text_eq value (as_str ClipboardKind.html)
    then some ClipboardKind.html
    else if text_eq value (as_str ClipboardKind.rtf)
    then some ClipboardKind.rtf
    else if text_eq value (as_str ClipboardKind.image)
    then some ClipboardKind.image
    else if text_eq value (as_str ClipboardKind.files)
    then some ClipboardKind.files
    else none

pub record ClipboardQuery : Type 0 where
  pub text : Text
  pub kind : Option ClipboardKind
  pub include_sensitive : Bool
  pub limit : ℕ

pub data Retention : Type 0 where
  before : ℤ → Retention
  forever : Retention

-- A row of `clipboard_items`.
pub record Row : Type 0 where
  pub id : Uuid
  pub kind : Text
  pub text_content : Option Text
  pub blob_hash : Option Text
  pub source_application : Option Text
  pub source_device : Option Uuid
  pub created_at : ℤ
  pub pinned_at : Option ℤ
  pub sensitive : Bool

abbrev pub ClipboardStore : Type 0
ClipboardStore = List Row

pub has_text : Option Text → Bool
has_text none = false
has_text (some t) = not (is_empty t)

pub has_blob : Option Text → Bool
has_blob none = false
has_blob (some hash) = true

pub has_id : Uuid → ClipboardStore → Bool
has_id id [] = false
has_id id (row ∷ rows) = (row.id == id) || has_id id rows

pub row_of : ClipboardEntry → Row
unfolding as_str
row_of entry = record {
  id = entry.id;
  kind = as_str entry.kind;
  text_content = entry.text;
  blob_hash = entry.blob_hash;
  source_application = entry.source.application_id;
  source_device = entry.source.device_id;
  created_at = entry.created_at;
  pinned_at = entry.pinned_at;
  sensitive = entry.sensitive;
}

-- A new row is the last one; an identifier that is there is ignored.
pub insert : Bool → ClipboardEntry → ClipboardStore → ClipboardStore × Result StorageError Bool
unfolding has_text has_blob has_id row_of
insert io entry rows =
    if not (has_text entry.text) && not (has_blob entry.blob_hash)
    then (rows, err invalid_entry)
    else if not io
    then (rows, err database)
    else if has_id entry.id rows
    then (rows, ok false)
    else (rows ++ row_of entry ∷ [], ok true)

pin : Uuid → Option ℤ → Row → Row
pin id pinned_at row = if row.id == id then record row { pinned_at = pinned_at } else row

pub pin_rows : Uuid → Option ℤ → ClipboardStore → ClipboardStore
unfolding pin
pin_rows id pinned_at [] = []
pin_rows id pinned_at (row ∷ rows) = pin id pinned_at row ∷ pin_rows id pinned_at rows

pub count_id : Uuid → ClipboardStore → ℕ
count_id id [] = 0
count_id id (row ∷ rows) = (if row.id == id then 1 else 0) + count_id id rows

pub set_pinned : Bool → Uuid → Option ℤ → ClipboardStore → ClipboardStore × Result StorageError Bool
unfolding pin_rows count_id
set_pinned io id pinned_at rows =
    if not io
    then (rows, err database)
    else (pin_rows id pinned_at rows, ok (count_id id rows == 1))

-- `blob.flatten()`: the column of the first row with the identifier.
pub blob_of : Uuid → ClipboardStore → Option Text
blob_of id [] = none
blob_of id (row ∷ rows) = if row.id == id then row.blob_hash else blob_of id rows

-- Its two statements, either of which may fail.
pub remove :
    Bool → Bool → Uuid → ClipboardStore → ClipboardStore × Result StorageError (Option Text)
unfolding blob_of
remove reads deletes id rows =
    if not reads || not deletes
    then (rows, err database)
    else (retain (λ row. not (row.id == id)) rows, ok (blob_of id rows))

-- `pinned_at IS NULL AND created_at < cutoff`
pub is_stale : ℤ → Row → Bool
is_stale cutoff row = elim row.pinned_at [
  | none ↦ not (leb_ℤ cutoff row.created_at)
  | some at ↦ false
]

pub prune : Bool → Retention → ClipboardStore → ClipboardStore × Result StorageError ℕ
unfolding is_stale
prune io forever rows = (rows, ok 0)
prune io (before cutoff) rows =
    if not io
    then (rows, err database)
    else (let kept = retain (λ row. not (is_stale cutoff row)) rows in
        (kept, ok (length rows - length kept)))

pub count : Bool → ClipboardStore → Result StorageError ℕ
count io rows = if io then ok (length rows) else err database

-- `row`
pub read_row : Row → Result StorageError ClipboardEntry
unfolding parse_kind
read_row row = do
  kind ← ok_or (parse_kind row.kind) database
  ok (record {
    id = row.id;
    kind = kind;
    text = row.text_content;
    blob_hash = row.blob_hash;
    source = record { application_id = row.source_application; device_id = row.source_device };
    created_at = row.created_at;
    pinned_at = row.pinned_at;
    sensitive = row.sensitive;
  })

pub collect : List Row → Result StorageError (List ClipboardEntry)
unfolding read_row
collect [] = ok []
collect (row ∷ rows) = do entry ← read_row row; entries ← collect rows; ok (entry ∷ entries)
