-- ===== src/Storage/Trusted/Revocation.antt =====
-- A revoked device stays revoked (crates/storage/src/trusted.rs).
use superspace.Base.{
  ◌≡◌, refl, ap, sym, subst, ◌∙◌, ◌⊎◌, inl, inr, Bool, true, false, ◌&&◌, Option, none, some, List,
  [], ◌∷◌, arith, ◌==◌, ==_iff, Bool-cases,
}
use superspace.Base.Int.{ℤ}
use superspace.Protocol.Message.{Uuid}
use superspace.Storage.Trusted.Rows.{enabled_to, seen}
use superspace.Storage.Trusted.Refinement.{
  Request, upserting, enabling, touching, removing, Devices, at, promise, empty-Represents, run,
  run_map, run-Represents,
}
use superspace.Storage.Trusted.{TrustedDevice, well_formed, find}

-- A request that does not pair or enable a device.
abbrev pub IsOther : Uuid → Request → Type 0
IsOther id (upserting device) = (device.id == id) ≡ false
IsOther id (enabling other enabled) = (other == id) && enabled ≡ false
IsOther id (touching other t) = Unit
IsOther id (removing other) = Unit

abbrev pub AllOther : Uuid → List (Bool × Request) → Type 0
AllOther id [] = Unit
AllOther id ((io, request) ∷ steps) = IsOther id request × AllOther id steps

-- A map with the device revoked, or without it.
abbrev Revoked : Uuid → TrustedDevice → Option TrustedDevice → Type 0
Revoked id device found = (found ≡ some device) ⊎ (found ≡ none)

at-Revoked :
    (id other : Uuid) (device : TrustedDevice) (x : Option TrustedDevice) (m : Devices)
    → Revoked id device (m id)
    → ((other == id) ≡ true → Revoked id device x)
    → Revoked id device (at other x m id)
at-Revoked id other device x m h g = elim (Bool-cases (other == id)) [
  | inl e ↦ rw e (g e)
  | inr e ↦ rw e h
]

-- What is under the identifier of a request.
under :
    (id other : Uuid) (device : TrustedDevice) (m : Devices)
    → (other == id) ≡ true
    → Revoked id device (m id)
    → Revoked id device (m other)
under id other device m e h = subst (λ i. Revoked id device (m i)) (sym ((==_iff other id).0 e)) h

disabled-Revoked :
    (id : Uuid) (device : TrustedDevice) (enabled : Bool) (found : Option TrustedDevice)
    → device.enabled ≡ false
    → enabled ≡ false
    → Revoked id device found
    → Revoked id device (enabled_to enabled found)
disabled-Revoked id device enabled none off e h = inr refl
disabled-Revoked id device enabled (some d) off e (inr k) = absurd (cc)
disabled-Revoked id device enabled (some d) off e (inl k) =
    let same : d ≡ device = cc in
    inl (
      ap (λ x. enabled_to enabled (some x)) same
      ∙ ap (λ b. enabled_to b (some device)) (e ∙ sym off))

seen-Revoked :
    (id : Uuid) (device : TrustedDevice) (t : ℤ) (found : Option TrustedDevice)
    → device.enabled ≡ false
    → Revoked id device found
    → Revoked id device (seen t found)
seen-Revoked id device t none off h = inr refl
seen-Revoked id device t (some d) off (inr k) = absurd (cc)
seen-Revoked id device t (some d) off (inl k) =
    let same : d ≡ device = cc in
    let off' : d.enabled ≡ false = ap (λ x. x.enabled) same ∙ off in simp off' (inl k)

serve_map-Revoked :
    (id : Uuid) (device : TrustedDevice) (request : Request) (m : Devices)
    → device.enabled ≡ false
    → IsOther id request
    → Revoked id device (m id)
    → Revoked id device ((promise true request m).0 id)
serve_map-Revoked id device (upserting paired) m off other h =
    elim (Bool-cases (well_formed paired)) [
      | inl w ↦
          rw w (at-Revoked id paired.id device (some paired) m h (λ e. absurd (cc (e, other))))
      | inr w ↦ rw w h
    ]
serve_map-Revoked id device (enabling i enabled) m off other h =
    at-Revoked id i device (enabled_to enabled (m i)) m h (λ e.
      disabled-Revoked id device enabled (m i) off (ground (arith, e, other))
        (under id i device m e h))
serve_map-Revoked id device (touching i t) m off other h =
    at-Revoked id i device (seen t (m i)) m h
      (λ e. seen-Revoked id device t (m i) off (under id i device m e h))
serve_map-Revoked id device (removing i) m off other h =
    at-Revoked id i device none m h (λ e. inr refl)

failed-Revoked :
    (id : Uuid) (device : TrustedDevice) (request : Request) (m : Devices)
    → Revoked id device (m id)
    → Revoked id device ((promise false request m).0 id)
failed-Revoked id device (upserting paired) m h = h
failed-Revoked id device (enabling i enabled) m h = h
failed-Revoked id device (touching i t) m h = h
failed-Revoked id device (removing i) m h = h

run_map-Revoked :
    (id : Uuid) (device : TrustedDevice) (steps : List (Bool × Request)) (m : Devices)
    → device.enabled ≡ false
    → AllOther id steps
    → Revoked id device (m id)
    → Revoked id device (run_map steps m id)
unfolding run_map
run_map-Revoked id device [] m off others h = h
run_map-Revoked id device ((true, request) ∷ steps) m off others h =
    run_map-Revoked id device steps (promise true request m).0 off others.1
      (serve_map-Revoked id device request m off others.0 h)
run_map-Revoked id device ((false, request) ∷ steps) m off others h =
    run_map-Revoked id device steps (promise false request m).0 off others.1
      (failed-Revoked id device request m h)

-- A device that was revoked stays as it is, or is removed, through any requests that neither pair it again
-- nor enable it: traffic of it is not recorded.
pub run-revoked :
    (id : Uuid) (device : TrustedDevice) (before steps : List (Bool × Request))
    → device.enabled ≡ false
    → AllOther id steps
    → find id (run before []) ≡ some device
    → (find id (run steps (run before [])) ≡ some device)
      ⊎ (find id (run steps (run before [])) ≡ none)
run-revoked id device before steps off others h =
    let r = run-Represents before [] (λ j. none) empty-Represents in
    let after = run-Represents steps (run before []) (run_map before (λ j. none)) r in
    subst (Revoked id device) (sym (after.found id)) (
      run_map-Revoked id device steps (run_map before (λ j. none)) off others
        (inl (sym (r.found id) ∙ h)))
