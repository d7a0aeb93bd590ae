-- ===== src/Storage/Trusted/Rows.antt =====
-- Rows of the table of crates/storage/src/trusted.rs under an identifier: those that are found, and how many there
-- are.
use superspace.Base.{
  ◌+◌, ◌≤◌, ◌≡◌, refl, inl, inr, Bool, true, false, not, Option, none, some, [], ◌∷◌, ◌++◌, retain,
  arith, ◌==◌, if◌then◌else◌, Bool-cases,
}
use superspace.Base.Int.{ℤ}
use superspace.Protocol.Message.{Uuid}
use superspace.Storage.Trusted.{
  TrustedDevice, TrustedDeviceStore, update_rows, count_rows, has, find, is_found, later_of,
  is_enabled,
}

abbrev pub enabled_to : Bool → Option TrustedDevice → Option TrustedDevice
enabled_to enabled none = none
enabled_to enabled (some device) = some (record device { enabled = enabled })

abbrev pub seen : ℤ → Option TrustedDevice → Option TrustedDevice
seen seen_at none = none
seen seen_at (some device) =
    if device.enabled
    then some (record device { last_seen_at = some (later_of device.last_seen_at seen_at) })
    else some device

abbrev pub is_on : Option TrustedDevice → Bool
is_on none = false
is_on (some device) = device.enabled

-- The changed rows under an identifier.
pub find-enabled :
    (j id : Uuid) (enabled : Bool) (rows : TrustedDeviceStore)
    → find j (update_rows (has id) (λ row. record row { enabled = enabled }) rows)
      ≡ (if id == j then enabled_to enabled (find j rows) else find j rows)
unfolding find update_rows
find-enabled j id enabled [] = ground arith
find-enabled j id enabled (row ∷ rows) = ground (arith, find-enabled j id enabled rows)

pub find-seen :
    (j id : Uuid) (t : ℤ) (rows : TrustedDeviceStore)
    → find j (
        update_rows
          (is_enabled id)
          (λ row. record row { last_seen_at = some (later_of row.last_seen_at t) })
          rows)
      ≡ (if id == j then seen t (find j rows) else find j rows)
unfolding find update_rows
find-seen j id t [] = ground arith
find-seen j id t (row ∷ rows) = ground (arith, find-seen j id t rows)

abbrev pub replaced : TrustedDevice → Option TrustedDevice → Option TrustedDevice
replaced device none = none
replaced device (some row) = some device

pub find-replaced :
    (j : Uuid) (device : TrustedDevice) (rows : TrustedDeviceStore)
    → find j (update_rows (has device.id) (λ row. device) rows)
      ≡ (if device.id == j then replaced device (find j rows) else find j rows)
unfolding find update_rows
find-replaced j device [] = ground arith
find-replaced j device (row ∷ rows) = ground (arith, find-replaced j device rows)

pub find-without :
    (j id : Uuid) (rows : TrustedDeviceStore)
    → find j (retain (λ row. not (has id row)) rows) ≡ (if id == j then none else find j rows)
unfolding find
find-without j id [] = ground arith
find-without j id (row ∷ rows) = ground (arith, find-without j id rows)

abbrev pub or_last : Uuid → TrustedDevice → Option TrustedDevice → Option TrustedDevice
or_last j device none = if device.id == j then some device else none
or_last j device (some row) = some row

pub find-append :
    (j : Uuid) (rows : TrustedDeviceStore) (device : TrustedDevice)
    → find j (rows ++ device ∷ []) ≡ or_last j device (find j rows)
unfolding find
find-append j [] device = refl
find-append j (row ∷ rows) device = ground (arith, find-append j rows device)

-- How many rows have an identifier.
pub count-update_rows :
    (j : Uuid) (matches : TrustedDevice → Bool) (change : TrustedDevice → TrustedDevice)
    → ((d : TrustedDevice) → matches d ≡ true → (change d).id ≡ d.id)
    → (rows : TrustedDeviceStore)
    → count_rows (has j) (update_rows matches change rows) ≡ count_rows (has j) rows
unfolding count_rows update_rows
count-update_rows j matches change same [] = refl
count-update_rows j matches change same (row ∷ rows) = elim (Bool-cases (matches row)) [
  | inl e ↦ rw (e, same row e, count-update_rows j matches change same rows) refl
  | inr e ↦ rw (e, count-update_rows j matches change same rows) refl
]

pub count-append :
    (j : Uuid) (rows : TrustedDeviceStore) (device : TrustedDevice)
    → count_rows (has j) (rows ++ device ∷ [])
      ≡ count_rows (has j) rows + (if device.id == j then 1 else 0)
unfolding count_rows
count-append j [] device = ground arith
count-append j (row ∷ rows) device = ground (arith, count-append j rows device)

pub count-none :
    (j : Uuid) (rows : TrustedDeviceStore) → find j rows ≡ none → count_rows (has j) rows ≡ 0
unfolding count_rows find
count-none j [] h = refl
count-none j (row ∷ rows) h = ground (arith, count-none j rows)

pub count-without :
    (j id : Uuid) (rows : TrustedDeviceStore)
    → count_rows (has j) (retain (λ row. not (has id row)) rows) ≤ count_rows (has j) rows
unfolding count_rows
count-without j id [] = omega arith
count-without j id (row ∷ rows) = ground (arith, count-without j id rows)

pub count-find :
    (j : Uuid) (rows : TrustedDeviceStore)
    → count_rows (has j) rows ≤ 1
    → (count_rows (has j) rows == 1) ≡ is_found (find j rows)
unfolding count_rows find
count-find j [] h = refl
count-find j (row ∷ rows) h = ground (arith, count-find j rows)

pub count-enabled-le :
    (j : Uuid) (rows : TrustedDeviceStore)
    → count_rows (is_enabled j) rows ≤ count_rows (has j) rows
unfolding count_rows
count-enabled-le j [] = omega arith
count-enabled-le j (row ∷ rows) = ground (arith, count-enabled-le j rows)

pub count-enabled :
    (j : Uuid) (rows : TrustedDeviceStore)
    → count_rows (has j) rows ≤ 1
    → (count_rows (is_enabled j) rows == 1) ≡ is_on (find j rows)
unfolding count_rows find
count-enabled j [] h = refl
count-enabled j (row ∷ rows) h = ground (arith, count-enabled j rows, count-enabled-le j rows)

pub replaced-found :
    (device : TrustedDevice) (o : Option TrustedDevice)
    → is_found o ≡ true
    → replaced device o ≡ some device
replaced-found device none h = cc
replaced-found device (some d) h = refl

pub not_found : (o : Option TrustedDevice) → is_found o ≡ false → o ≡ none
not_found none h = refl
not_found (some d) h = cc

pub or_last-other :
    (j : Uuid) (device : TrustedDevice) (o : Option TrustedDevice)
    → (device.id == j) ≡ false
    → or_last j device o ≡ o
or_last-other j device none h = rw h refl
or_last-other j device (some d) h = refl
