-- ===== src/Platform/Clipboard/Monitoring.antt =====
-- The capture policy and the loop suppression of crates/platform/src/clipboard.rs.
use superspace.Base.{
  ◌≡◌, refl, ◌⊎◌, ◌↔◌, inl, inr, true, Option, none, some, List, [], ◌∷◌, map, arith, if◌then◌else◌,
  Bool-cases,
}
use superspace.Base.Bytes.{Bytes}
use superspace.Base.Result.{ok, err}
use superspace.Base.Text.{Text, text_eq, text_eq→≡, text_eq_refl}
use superspace.Platform.Clipboard.{
  ClipboardValue, ClipboardError, digest_input, ClipboardContext, exclude, normal, sensitive,
  contains_text, new_policy, assess, is_excluded, Backend, ClipboardMonitor, ClipboardObservation,
  digest, is_last, poll, apply_remote,
}

module _ (to_lowercase : Text → Text) where
  -- The application is one of those listed, up to the case of letters.
  abbrev pub IsListed : Text → List Text → Type 0
  IsListed a [] = ⊥
  IsListed a (x ∷ xs) = (to_lowercase a ≡ to_lowercase x) ⊎ IsListed a xs

  contains_text_iff :
      (a : Text) (xs : List Text)
      → (contains_text (to_lowercase a) (map to_lowercase xs) ≡ true) ↔ IsListed a xs
  unfolding contains_text
  contains_text_iff a [] = (λ h. cc, λ h. absurd h)
  contains_text_iff a (x ∷ xs) = (
    λ h. elim (Bool-cases (text_eq (to_lowercase a) (to_lowercase x))) [
      | inl same ↦ inl (text_eq→≡ _ _ same)
      | inr other ↦ inr ((contains_text_iff a xs).0 (ground (arith, other)))
    ],
    elim [
      | inl same ↦ ground (arith, text_eq_refl (to_lowercase x), same)
      | inr later ↦ ground (arith, (contains_text_iff a xs).1 later)
    ],
  )

  -- The context names a listed application.
  abbrev pub ComesFrom : Option Text → List Text → Type 0
  ComesFrom none apps = ⊥
  ComesFrom (some a) apps = IsListed a apps

  is_excluded_iff :
      (apps : List Text) (o : Option Text)
      → (is_excluded to_lowercase (new_policy to_lowercase apps) o ≡ true) ↔ ComesFrom o apps
  unfolding is_excluded new_policy
  is_excluded_iff apps none = (λ h. cc, λ h. absurd h)
  is_excluded_iff apps (some a) = contains_text_iff a apps

  -- A copy is excluded exactly when its application is listed, up to the case of letters, whatever
  -- the sensitivity mark; every other copy is sensitive or normal as the mark says.
  pub assess_cases :
      (apps : List Text) (c : ClipboardContext)
      → let verdict = assess to_lowercase (new_policy to_lowercase apps) c in
        (ComesFrom c.application_id apps × (verdict ≡ exclude))
        ⊎ ((¬ ComesFrom c.application_id apps)
            × (verdict ≡ (if c.sensitive then sensitive else normal)))
  unfolding assess
  assess_cases apps c =
      elim (Bool-cases (is_excluded to_lowercase (new_policy to_lowercase apps) c.application_id)) [
        | inl e ↦ inl ((is_excluded_iff apps c.application_id).0 e, rw e refl)
        | inr e ↦ inr (
          λ h. absurd (ground (arith, e, (is_excluded_iff apps c.application_id).1 h)),
          rw e refl,
        )
      ]

module _ (hash : Bytes → Bytes) {B : Type 0} (os : Backend B) where
  is_last_self : (d : Bytes) → is_last hash (some d) d ≡ true
  unfolding is_last
  is_last_self d = text_eq_refl d

  -- What a successful application has done: the value is valid, the desktop took it, and its
  -- digest is the one to suppress.
  record Applies (m m' : ClipboardMonitor B) (v : ClipboardValue) : Type 0 where
    input : Bytes
    valid : digest_input v ≡ some input
    taken : os.write v m.backend ≡ (m'.backend, ok tt)
    last : m'.last_digest ≡ some (hash input)

  -- An application that fails, by validation or by the desktop, leaves the suppressed digest alone.
  pub apply_remote_failed :
      (m : ClipboardMonitor B) (v : ClipboardValue) (e : ClipboardError)
      → (apply_remote hash os m v).1 ≡ err e
      → (apply_remote hash os m v).0.last_digest ≡ m.last_digest
  unfolding apply_remote
  apply_remote_failed m v e h = ground arith

  poll-reported :
      (m : ClipboardMonitor B) (o : ClipboardObservation)
      → (poll hash os m).1 ≡ ok (some o)
      → (digest hash o.value ≡ ok o.digest) × ((poll hash os m).0.last_digest ≡ some o.digest)
  unfolding poll
  poll-reported m o h = (ground arith, ground arith)

  poll_known :
      (m : ClipboardMonitor B) (v : ClipboardValue) (d : Bytes) (b : B)
      → m.last_digest ≡ some d
      → digest hash v ≡ ok d
      → os.read m.backend ≡ (b, ok v)
      → (poll hash os m).1 ≡ ok none
  unfolding poll is_last
  poll_known m v d b last e reads = ground (arith, text_eq_refl d)

  -- A value that a poll has reported is not reported again while the desktop still holds it.
  pub poll-poll :
      (m : ClipboardMonitor B) (o : ClipboardObservation) (b : B)
      → (poll hash os m).1 ≡ ok (some o)
      → os.read (poll hash os m).0.backend ≡ (b, ok o.value)
      → (poll hash os (poll hash os m).0).1 ≡ ok none
  poll-poll m o b h reads =
      let (valid, last) = poll-reported m o h in
      poll_known (poll hash os m).0 o.value o.digest b last valid reads
