-- ===== src/Extensions/Registry/Catalog/Latest.antt =====
-- The latest record of a loaded catalog (crates/extensions/src/registry.rs).
use superspace.Base.{
  ◌≡◌, refl, subst, Bool, true, false, Option, some, List, [], ◌∷◌, All, retain, Bool-cases, inl,
  inr, if◌then◌else◌,
}
use superspace.Base.Bytes.{Bytes}
use superspace.Base.Result.{ok}
use superspace.Base.Sort.{is_gt}
use superspace.Base.Text.{Text, text_eq, text_eq→≡}
use Prim.Native.Nat.{Ordering}
use superspace.Extensions.Package.{Formats}
use superspace.Extensions.Registry.{RegistryRecord, Libraries}
use superspace.Extensions.Registry.Publish.{Files}
use superspace.Extensions.Registry.Catalog.Loaded.{IsBacked, load_registry-IsBacked}
use superspace.Extensions.Registry.Catalog.{IdEntry, max_from, max_by, latest, load_registry}

module _ {Version : Type 0} (formats : Formats Version) (libraries : Libraries Version)
    (from_slice : Bytes → Option (RegistryRecord Version))
    (cmp : Version → Version → Ordering) where
  retain-IsBacked :
      (root : Text) (files : Files) (id : Text) (records : List (RegistryRecord Version))
      → All (IsBacked formats libraries from_slice cmp root files) records
      → All
          (λ s. IsBacked formats libraries from_slice cmp root files s × (s.id ≡ id))
          (retain (λ s. text_eq s.id id) records)
  retain-IsBacked root files id [] h = tt
  retain-IsBacked root files id (r ∷ rs) h = elim (Bool-cases (text_eq r.id id)) [
    | inl e ↦ rw e ((h.0, text_eq→≡ r.id id e), retain-IsBacked root files id rs h.1)
    | inr e ↦ rw e (retain-IsBacked root files id rs h.1)
  ]

  -- No version of the records is greater.
  abbrev pub IsGreatest : Version → List (RegistryRecord Version) → Type 0
  IsGreatest version = All (λ s. is_gt (cmp s.version version) ≡ false)

  module _ (asym : (a b : Version) → is_gt (cmp a b) ≡ true → is_gt (cmp b a) ≡ false)
      (trans : (a b c : Version)
        → is_gt (cmp a b) ≡ false
        → is_gt (cmp b c) ≡ false
        → is_gt (cmp a c) ≡ false) where
    IsGreatest-trans :
        (v w : Version) (rs : List (RegistryRecord Version))
        → is_gt (cmp v w) ≡ false
        → IsGreatest v rs
        → IsGreatest w rs
    IsGreatest-trans v w [] h g = tt
    IsGreatest-trans v w (r ∷ rs) h g = (trans r.version v w g.0 h, IsGreatest-trans v w rs h g.1)

    not_above_self : (v : Version) → is_gt (cmp v v) ≡ false
    not_above_self v = elim (Bool-cases (is_gt (cmp v v))) [ inl e ↦ asym v v e | inr e ↦ e ]

    chosen-above :
        (best r : RegistryRecord Version) (later : Bool)
        → is_gt (cmp best.version r.version) ≡ later
        → (is_gt (cmp best.version (if later then best else r).version) ≡ false)
          × (is_gt (cmp r.version (if later then best else r).version) ≡ false)
    chosen-above best r true e = (not_above_self best.version, asym best.version r.version e)
    chosen-above best r false e = (e, not_above_self r.version)

    max_from-IsGreatest :
        (best : RegistryRecord Version) (rs : List (RegistryRecord Version))
        → IsGreatest (max_from formats libraries from_slice cmp best rs).version (best ∷ rs)
    unfolding max_from
    max_from-IsGreatest best [] = (not_above_self best.version, tt)
    max_from-IsGreatest best (r ∷ rs) =
        let later = is_gt (cmp best.version r.version) in
        let chosen = if later then best else r in
        let (a, b) = chosen-above best r later refl in
        let g = max_from-IsGreatest chosen rs in
        (trans best.version chosen.version _ a g.0, (trans r.version chosen.version _ b g.0, g.1))

    max_from-All {κ} :
        (P : RegistryRecord Version → Type κ) (best : RegistryRecord Version)
        (rs : List (RegistryRecord Version))
        → P best
        → All P rs
        → P (max_from formats libraries from_slice cmp best rs)
    unfolding max_from
    max_from-All P best [] p ps = p
    max_from-All P best (r ∷ rs) p ps =
        max_from-All P (if is_gt (cmp best.version r.version) then best else r) rs
          (elim (is_gt (cmp best.version r.version)) as (λ b. P (if b then best else r)) [
            | true ↦ p
            | false ↦ ps.0
          ])
          ps.1

    max_by-some {κ} :
        (P : RegistryRecord Version → Type κ) (rs : List (RegistryRecord Version))
        (r : RegistryRecord Version)
        → All P rs
        → max_by formats libraries from_slice cmp rs ≡ some r
        → P r × IsGreatest r.version rs
    unfolding max_by
    max_by-some P [] r ps h = absurd cc
    max_by-some P (b ∷ rs) r ps h =
        let e : max_from formats libraries from_slice cmp b rs ≡ r = cc in
        subst (λ m. P m × IsGreatest m.version (b ∷ rs)) e
          (max_from-All P b rs ps.0 ps.1, max_from-IsGreatest b rs)

    -- What the latest of a loaded catalog is: a record of that extension whose package is there and verified,
    -- and with no greater version of that extension in the catalog.
    pub load_registry-latest :
        (root : Text) (files : Files) (listing : Option (Option (List (Option IdEntry))))
        (id : Text) (records : List (RegistryRecord Version)) (r : RegistryRecord Version)
        → load_registry formats libraries from_slice cmp root files listing ≡ ok records
        → latest formats libraries from_slice cmp id records ≡ some r
        → (IsBacked formats libraries from_slice cmp root files r × (r.id ≡ id))
          × IsGreatest r.version (retain (λ s. text_eq s.id id) records)
    unfolding latest
    load_registry-latest root files listing id records r h e =
        let backed =
          load_registry-IsBacked formats libraries from_slice cmp root files listing records h in
        max_by-some (λ s. IsBacked formats libraries from_slice cmp root files s × (s.id ≡ id))
          (retain (λ s. text_eq s.id id) records) r (retain-IsBacked root files id records backed) e
