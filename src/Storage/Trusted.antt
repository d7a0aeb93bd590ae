-- ===== src/Storage/Trusted.antt =====
-- crates/storage/src/trusted.rs: TrustedDeviceStore on the rows of its table, in the order of insertion, which
-- rows that sort alike keep. The statements stand as what they do to the rows; whether SQLite carries one
-- out is an argument. An identifier is its number, a public key of its type has 32 bytes.
mod Rows
pub mod Refinement
pub mod Revocation
pub mod Listing
mod Examples
use superspace.Base.{
  ℕ, ◌+◌, ◌*◌, Bool, true, false, not, ◌&&◌, ◌||◌, Option, none, some, List, [], ◌∷◌, ◌++◌, length,
  map, retain, leb, ◌==◌, if◌then◌else◌,
}
use Prim.Native.Nat.{Ordering}
use superspace.Base.Bytes.{Bytes}
use superspace.Base.Int.{ℤ, compare_ℤ, leb_ℤ}
use superspace.Base.Order.{then_cmp}
use superspace.Base.Result.{Result, ok, err, ◌>>=◌, ◌>>◌, guard, map_err}
use superspace.Base.Sort.{sort_by}
use superspace.Base.Text.{Text, trim, is_empty, compare_text}
use superspace.Protocol.Message.{Uuid}

pub record TrustedDevice : Type 0 where
  pub id : Uuid
  pub name : Text
  pub noise_public_key : Bytes
  pub certificate_der : Bytes
  pub paired_at : ℤ
  pub last_seen_at : Option ℤ
  pub enabled : Bool

pub data TrustStoreError : Type 0 where
  database invalid_device : TrustStoreError

abbrev pub max_certificate_bytes : ℕ
max_certificate_bytes = 16 * 1024

-- The condition of `validate`.
unfoldable pub well_formed : TrustedDevice → Bool
well_formed self =
    not (is_empty (trim self.name))
    && not (is_empty self.certificate_der)
    && leb (length self.certificate_der) max_certificate_bytes

unfoldable pub validate : TrustedDevice → Result TrustStoreError (Unit {0})
unfolding well_formed
validate self = guard (well_formed self) invalid_device

abbrev pub TrustedDeviceStore : Type 0
TrustedDeviceStore = List TrustedDevice

-- `UPDATE ... WHERE`, and how many rows a condition holds of.
unfoldable pub update_rows :
    (TrustedDevice → Bool)
    → (TrustedDevice → TrustedDevice)
    → TrustedDeviceStore
    → TrustedDeviceStore
update_rows matches change [] = []
update_rows matches change (row ∷ rows) =
    (if matches row then change row else row) ∷ update_rows matches change rows

unfoldable pub count_rows : (TrustedDevice → Bool) → TrustedDeviceStore → ℕ
count_rows matches [] = 0
count_rows matches (row ∷ rows) = (if matches row then 1 else 0) + count_rows matches rows

abbrev pub has : Uuid → TrustedDevice → Bool
has id row = row.id == id

unfoldable pub find : Uuid → TrustedDeviceStore → Option TrustedDevice
find id [] = none
find id (row ∷ rows) = let rest = find id rows in if has id row then some row else rest

abbrev pub is_found : Option TrustedDevice → Bool
is_found none = false
is_found (some row) = true

unfoldable pub upsert :
    Bool
    → TrustedDevice
    → TrustedDeviceStore
    → TrustedDeviceStore × Result TrustStoreError (Unit {0})
unfolding validate update_rows find
upsert io device rows =
    if not (well_formed device)
    then (rows, err invalid_device)
    else if not io
    then (rows, err database)
    else if is_found (find device.id rows)
    then (update_rows (has device.id) (λ row. device) rows, ok tt)
    else (rows ++ device ∷ [], ok tt)

-- `row`, which checks what was stored; its error is one of the database.
unfoldable pub checked_row : TrustedDevice → Result TrustStoreError TrustedDevice
unfolding validate
checked_row row = do map_err (λ e. database) (validate row); ok row

get_row : Option TrustedDevice → Result TrustStoreError (Option TrustedDevice)
unfolding checked_row
get_row none = ok none
get_row (some row) = do device ← checked_row row; ok (some device)

unfoldable pub get :
    Bool → Uuid → TrustedDeviceStore → Result TrustStoreError (Option TrustedDevice)
unfolding get_row find
get io id rows = do guard io database; get_row (find id rows)

-- `enabled DESC`
abbrev pub enabled_first : Bool → Bool → Ordering
enabled_first true true = Ordering.eq
enabled_first true false = Ordering.lt
enabled_first false true = Ordering.gt
enabled_first false false = Ordering.eq

-- `last_seen_at IS NULL, last_seen_at DESC`
abbrev pub seen_first : Option ℤ → Option ℤ → Ordering
seen_first none none = Ordering.eq
seen_first none (some b) = Ordering.gt
seen_first (some a) none = Ordering.lt
seen_first (some a) (some b) = compare_ℤ b a

abbrev pub fold_case : ℕ → ℕ
fold_case c = if leb b'A' c && leb c b'Z' then c + 32 else c

-- `ORDER BY`; the collation NOCASE compares with the ASCII letters folded.
abbrev pub compare_devices : TrustedDevice → TrustedDevice → Ordering
compare_devices a b = then_cmp (enabled_first a.enabled b.enabled) (
    then_cmp (seen_first a.last_seen_at b.last_seen_at)
      (compare_text (map fold_case a.name) (map fold_case b.name)))

-- `collect`, which stops at the first row that is not valid.
unfoldable pub checked_rows : TrustedDeviceStore → Result TrustStoreError (List TrustedDevice)
unfolding checked_row
checked_rows [] = ok []
checked_rows (row ∷ rows) =
    let rest = checked_rows rows in
    (do device ← checked_row row; devices ← rest; ok (device ∷ devices))

unfoldable pub list : Bool → TrustedDeviceStore → Result TrustStoreError (List TrustedDevice)
unfolding checked_rows
list io rows = do guard io database; checked_rows (sort_by compare_devices rows)

unfoldable pub set_enabled :
    Bool → Uuid → Bool → TrustedDeviceStore → TrustedDeviceStore × Result TrustStoreError Bool
unfolding update_rows count_rows
set_enabled io id enabled rows = if not io then (rows, err database) else (
  update_rows (has id) (λ row. record row { enabled = enabled }) rows,
  ok (count_rows (has id) rows == 1),
)

-- `max(coalesce(last_seen_at, ?2), ?2)`
abbrev pub later_of : Option ℤ → ℤ → ℤ
later_of none seen_at = seen_at
later_of (some before) seen_at = if leb_ℤ before seen_at then seen_at else before

abbrev pub is_enabled : Uuid → TrustedDevice → Bool
is_enabled id row = has id row && row.enabled

unfoldable pub touch :
    Bool → Uuid → ℤ → TrustedDeviceStore → TrustedDeviceStore × Result TrustStoreError Bool
unfolding update_rows count_rows
touch io id seen_at rows = if not io then (rows, err database) else (
  update_rows (is_enabled id)
      (λ row. record row { last_seen_at = some (later_of row.last_seen_at seen_at) }) rows,
  ok (count_rows (is_enabled id) rows == 1),
)

unfoldable pub remove :
    Bool → Uuid → TrustedDeviceStore → TrustedDeviceStore × Result TrustStoreError Bool
unfolding count_rows
remove io id rows =
    if not io
    then (rows, err database)
    else (retain (λ row. not (has id row)) rows, ok (count_rows (has id) rows == 1))
