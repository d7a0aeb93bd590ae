-- ===== src/Storage/Trusted/Refinement.antt =====
-- The table of crates/storage/src/trusted.rs implements a map from identifiers to devices.
use superspace.Base.{
  ◌≤◌, ◌≡◌, refl, ap, sym, subst, ◌∙◌, inl, inr, Bool, true, false, not, Option, none, some, List,
  [], ◌∷◌, ◌++◌, retain, arith, ◌==◌, ==_iff, if◌then◌else◌, Bool-cases,
}
use superspace.Base.Int.{ℤ}
use superspace.Base.Result.{Result, ok, err}
use superspace.Protocol.Message.{Uuid}
use superspace.Storage.Trusted.Rows.{
  enabled_to, seen, is_on, replaced, or_last, find-enabled, find-seen, find-replaced, find-without,
  find-append, count-update_rows, count-append, count-none, count-without, count-find,
  count-enabled, replaced-found, not_found, or_last-other,
}
use superspace.Storage.Trusted.{
  TrustedDevice, TrustStoreError, database, invalid_device, TrustedDeviceStore, well_formed,
  update_rows, count_rows, has, find, is_found, upsert, set_enabled, later_of, is_enabled, touch,
  remove,
}

-- The requests that change the table.
pub data Request : Type 0 where
  upserting : TrustedDevice → Request
  enabling : Uuid → Bool → Request
  touching : Uuid → ℤ → Request
  removing : Uuid → Request

-- `upsert` returns nothing, which stands as true.
abbrev pub done :
    TrustedDeviceStore × Result TrustStoreError (Unit {0})
    → TrustedDeviceStore × Result TrustStoreError Bool
done (rows, ok t) = (rows, ok true)
done (rows, err e) = (rows, err e)

abbrev pub serve :
    Bool → Request → TrustedDeviceStore → TrustedDeviceStore × Result TrustStoreError Bool
serve io (upserting device) rows = done (upsert io device rows)
serve io (enabling id enabled) rows = set_enabled io id enabled rows
serve io (touching id seen_at) rows = touch io id seen_at rows
serve io (removing id) rows = remove io id rows

-- What the store promises: at most one device under each identifier.
abbrev pub Devices : Type 0
Devices = Uuid → Option TrustedDevice

abbrev pub at : Uuid → Option TrustedDevice → Devices → Devices
at id device m j = if id == j then device else m j

abbrev pub serve_map : Request → Devices → Devices × Result TrustStoreError Bool
serve_map (upserting device) m =
    if well_formed device then (at device.id (some device) m, ok true) else (m, err invalid_device)
serve_map (enabling id enabled) m = (at id (enabled_to enabled (m id)) m, ok (is_found (m id)))
serve_map (touching id seen_at) m = (at id (seen seen_at (m id)) m, ok (is_on (m id)))
serve_map (removing id) m = (at id none m, ok (is_found (m id)))

-- A request that the database carries out, or that changes nothing.
abbrev pub promise : Bool → Request → Devices → Devices × Result TrustStoreError Bool
promise true request m = serve_map request m
promise false (upserting device) m =
    (m, err (if well_formed device then database else invalid_device))
promise false request m = (m, err database)

-- The rows hold the devices of the map, each in one row.
pub record Represents (rows : TrustedDeviceStore) (m : Devices) : Type 0 where
  pub found : (j : Uuid) → find j rows ≡ m j
  pub unique : (j : Uuid) → count_rows (has j) rows ≤ 1

-- The rows after each change.
module _ (rows : TrustedDeviceStore) (m : Devices) (r : Represents rows m) where
  unique_after :
      (matches : TrustedDevice → Bool) (change : TrustedDevice → TrustedDevice)
      → ((d : TrustedDevice) → matches d ≡ true → (change d).id ≡ d.id)
      → (j : Uuid) → count_rows (has j) (update_rows matches change rows) ≤ 1
  unique_after matches change same j =
      omega (arith, count-update_rows j matches change same rows, r.unique j)

  at_found :
      (id j : Uuid) (f : Option TrustedDevice → Option TrustedDevice)
      → (if id == j then f (find j rows) else find j rows) ≡ at id (f (m id)) m j
  at_found id j f = elim (Bool-cases (id == j)) [
    | inl e ↦ rw (e, (==_iff id j).0 e, r.found j) refl
    | inr e ↦ rw (e, r.found j) refl
  ]

  enabled-Represents :
      (id : Uuid) (enabled : Bool)
      → Represents
          (update_rows (has id) (λ row. record row { enabled = enabled }) rows)
          (at id (enabled_to enabled (m id)) m)
  enabled-Represents id enabled = record {
    found = λ j. find-enabled j id enabled rows ∙ at_found id j (enabled_to enabled);
    unique = unique_after (has id) (λ row. record row { enabled = enabled }) (λ d h. refl);
  }

  seen-Represents :
      (id : Uuid) (t : ℤ)
      → Represents
          (update_rows
            (is_enabled id)
            (λ row. record row { last_seen_at = some (later_of row.last_seen_at t) })
            rows)
          (at id (seen t (m id)) m)
  seen-Represents id t = record {
    found = λ j. find-seen j id t rows ∙ at_found id j (seen t);
    unique =
        unique_after (is_enabled id)
          (λ row. record row { last_seen_at = some (later_of row.last_seen_at t) }) (λ d h. refl);
  }

  removed-Represents :
      (id : Uuid) → Represents (retain (λ row. not (has id row)) rows) (at id none m)
  removed-Represents id = record {
    found = λ j. find-without j id rows ∙ at_found id j (λ o. none);
    unique = λ j. omega (arith, count-without j id rows, r.unique j);
  }

  at-replaced :
      (device : TrustedDevice)
      → is_found (find device.id rows) ≡ true
      → (j : Uuid)
      → (if device.id == j then replaced device (find j rows) else find j rows)
        ≡ at device.id (some device) m j
  at-replaced device there j = elim (Bool-cases (device.id == j)) [
    | inl e ↦
        let there' = subst (λ i. is_found (find i rows) ≡ true) ((==_iff device.id j).0 e) there in
        rw e (replaced-found device (find j rows) there')
    | inr e ↦ rw e (r.found j)
  ]

  at-appended :
      (device : TrustedDevice)
      → is_found (find device.id rows) ≡ false
      → (j : Uuid) → or_last j device (find j rows) ≡ at device.id (some device) m j
  at-appended device new j = elim (Bool-cases (device.id == j)) [
    | inl e ↦
        let new' = subst (λ i. is_found (find i rows) ≡ false) ((==_iff device.id j).0 e) new in
        ap (or_last j device) (not_found (find j rows) new') ∙ rw e refl
    | inr e ↦ or_last-other j device (find j rows) e ∙ rw e (r.found j)
  ]

  unique_appended :
      (device : TrustedDevice)
      → is_found (find device.id rows) ≡ false
      → (j : Uuid) → count_rows (has j) (rows ++ device ∷ []) ≤ 1
  unique_appended device new j = elim (Bool-cases (device.id == j)) [
    | inl e ↦
        let new' = subst (λ i. is_found (find i rows) ≡ false) ((==_iff device.id j).0 e) new in
        ground
          (arith, e, count-append j rows device, count-none j rows (not_found (find j rows) new'))
    | inr e ↦ ground (arith, e, count-append j rows device, r.unique j)
  ]

  replaced-Represents :
      (device : TrustedDevice)
      → is_found (find device.id rows) ≡ true
      → Represents (update_rows (has device.id) (λ row. device) rows) (at device.id (some device) m)
  replaced-Represents device there = record {
    found = λ j. find-replaced j device rows ∙ at-replaced device there j;
    unique =
        unique_after (has device.id) (λ row. device) (λ d h. sym ((==_iff d.id device.id).0 h));
  }

  appended-Represents :
      (device : TrustedDevice)
      → is_found (find device.id rows) ≡ false
      → Represents (rows ++ device ∷ []) (at device.id (some device) m)
  appended-Represents device new = record {
    found = λ j. find-append j rows device ∙ at-appended device new j;
    unique = unique_appended device new;
  }

  serve-Represents :
      (io : Bool) (request : Request)
      → Represents (serve io request rows).0 (promise io request m).0
        × ((serve io request rows).1 ≡ (promise io request m).1)
  unfolding upsert set_enabled touch remove
  serve-Represents true (upserting device) = elim (Bool-cases (well_formed device)) [
    | inl w ↦ elim (Bool-cases (is_found (find device.id rows))) [
      | inl there ↦ rw (w, there) (replaced-Represents device there, refl)
      | inr new ↦ rw (w, new) (appended-Represents device new, refl)
    ]
    | inr w ↦ rw w (r, refl)
  ]
  serve-Represents true (enabling id enabled) = (
    enabled-Represents id enabled,
    ap ok (count-find id rows (r.unique id) ∙ ap is_found (r.found id)),
  )
  serve-Represents true (touching id seen_at) = (
    seen-Represents id seen_at,
    ap ok (count-enabled id rows (r.unique id) ∙ ap is_on (r.found id)),
  )
  serve-Represents true (removing id) =
      (removed-Represents id, ap ok (count-find id rows (r.unique id) ∙ ap is_found (r.found id)))
  serve-Represents false (upserting device) = elim (Bool-cases (well_formed device)) [
    | inl w ↦ rw w (r, refl)
    | inr w ↦ rw w (r, refl)
  ]
  serve-Represents false (enabling id enabled) = (r, refl)
  serve-Represents false (touching id seen_at) = (r, refl)
  serve-Represents false (removing id) = (r, refl)

-- A sequence of requests, each carried out by the database or not.
unfoldable pub run : List (Bool × Request) → TrustedDeviceStore → TrustedDeviceStore
run [] rows = rows
run ((io, request) ∷ steps) rows = run steps (serve io request rows).0

unfoldable pub run_map : List (Bool × Request) → Devices → Devices
run_map [] m = m
run_map ((io, request) ∷ steps) m = run_map steps (promise io request m).0

pub run-Represents :
    (steps : List (Bool × Request)) (rows : TrustedDeviceStore) (m : Devices)
    → Represents rows m
    → Represents (run steps rows) (run_map steps m)
unfolding run run_map
run-Represents [] rows m r = r
run-Represents ((io, request) ∷ steps) rows m r =
    run-Represents steps (serve io request rows).0 (promise io request m).0
      (serve-Represents rows m r io request).0

pub empty-Represents : Represents [] (λ j. none)
unfolding find count_rows
empty-Represents = record { found = λ j. refl; unique = λ j. omega arith }

-- The store implements its map: after any requests to an empty store, one more request returns what the
-- map promises, and leaves the rows of what the map becomes, also where the database fails.
pub serve-run :
    (steps : List (Bool × Request)) (io : Bool) (request : Request)
    → Represents
        (serve io request (run steps [])).0
        (promise io request (run_map steps (λ j. none))).0
      × ((serve io request (run steps [])).1 ≡ (promise io request (run_map steps (λ j. none))).1)
serve-run steps io request =
    serve-Represents (run steps []) (run_map steps (λ j. none))
      (run-Represents steps [] (λ j. none) empty-Represents) io request
