-- ===== src/Storage/Trusted/Examples.antt =====
-- TrustedDeviceStore of crates/storage/src/trusted.rs on examples.
use superspace.Base.{◌≡◌, refl, ◌⊎◌, Bool, true, false, Option, none, some, List, [], ◌∷◌, ◌++◌}
use superspace.Base.Bytes.{Bytes}
use superspace.Base.Int.{pos}
use superspace.Base.Result.{ok}
use superspace.Storage.Trusted.{TrustedDevice, TrustedDeviceStore, find, get, list}
use superspace.Storage.Trusted.Refinement.{
  Request, upserting, enabling, touching, removing, Represents, serve, promise, run, run_map,
  serve-run,
}
use superspace.Storage.Trusted.Revocation.{run-revoked}

abbrev four : Bytes
four = 7 ∷ 7 ∷ 7 ∷ 7 ∷ []

abbrev key : Bytes
key = four ++ (four ++ (four ++ (four ++ (four ++ (four ++ (four ++ four))))))

abbrev laptop : TrustedDevice
laptop = record {
  id = 1;
  name = b'L' ∷ [];
  noise_public_key = key;
  certificate_der = 1 ∷ [];
  paired_at = pos 10;
  last_seen_at = none;
  enabled = true;
}

abbrev phone : TrustedDevice
phone = record laptop { id = 2; name = b'P' ∷ [] }

abbrev revoked : TrustedDevice
revoked = record laptop { last_seen_at = some (pos 20); enabled = false }

abbrev pairing : List (Bool × Request)
pairing =
    (true, upserting laptop)
    ∷ (true, upserting phone)
    ∷ (true, touching 1 (pos 20))
    ∷ (true, enabling 1 false)
    ∷ []

abbrev later : List (Bool × Request)
later = (true, touching 1 (pos 30)) ∷ (true, enabling 2 true) ∷ (false, removing 1) ∷ []

run-pairing : run pairing [] ≡ revoked ∷ phone ∷ []
unfolding run superspace.Storage.Trusted.set_enabled superspace.Storage.Trusted.touch
    superspace.Storage.Trusted.upsert superspace.Base.Text.trim
run-pairing = refl

-- A second pairing replaces the first.
get-repaired : get true 1 (run ((true, upserting revoked) ∷ pairing) []) ≡ ok (some revoked)
unfolding run get superspace.Storage.Trusted.set_enabled superspace.Storage.Trusted.touch
    superspace.Storage.Trusted.upsert superspace.Base.Text.trim
get-repaired = refl

serve-run_example :
    Represents
      (serve true (touching 1 (pos 30)) (run pairing [])).0
      (promise true (touching 1 (pos 30)) (run_map pairing (λ j. none))).0
    × ((serve true (touching 1 (pos 30)) (run pairing [])).1
        ≡ (promise true (touching 1 (pos 30)) (run_map pairing (λ j. none))).1)
serve-run_example = serve-run pairing true (touching 1 (pos 30))

run-revoked_example :
    (find 1 (run later (run pairing [])) ≡ some revoked)
    ⊎ (find 1 (run later (run pairing [])) ≡ none)
unfolding run find superspace.Storage.Trusted.set_enabled superspace.Storage.Trusted.touch
    superspace.Storage.Trusted.upsert superspace.Base.Text.trim
run-revoked_example = run-revoked 1 revoked pairing later refl (tt, (refl, (tt, tt))) refl

list-pairing : list true (run pairing []) ≡ ok (phone ∷ revoked ∷ [])
unfolding run list superspace.Base.Sort.sort_by superspace.Storage.Trusted.set_enabled
    superspace.Storage.Trusted.touch superspace.Storage.Trusted.upsert superspace.Base.Text.trim
list-pairing = refl
