-- ===== src/Extensions/Policy/Confinement.antt =====
-- What the checks of crates/extensions/src/policy.rs admit.
use superspace.Base.{
  ◌≡◌, refl, ap, ap₂, ◌⊎◌, inl, inr, ◌↔◌, Bool, true, false, not, ◌||◌, List, [], ◌∷◌, ◌++◌, arith,
  Bool-cases, All,
}
use superspace.Base.Result.{ok}
use superspace.Base.Text.{Text, text_eq, text_eq→≡, text_eq_refl}
use superspace.Protocol.Paths.{
  Component, prefix, root_dir, cur_dir, parent_dir, normal, is_absolute, components,
}
use superspace.Protocol.Paths.Resolve.{
  resolve, IsWithin, here, IsInner, components-absolute, resolve-append,
}
use superspace.Protocol.Message.{any_unsafe}
use superspace.Protocol.Message.Validation.{resolve-IsWithin}
use superspace.Extensions.Policy.{
  Capability, clipboard_read, clipboard_write, filesystem, network, process, CapabilityPolicy,
  names, allows_network, require_network, allows_process, require_process, component_eq,
  starts_with, has_parent, allows_path, require_filesystem,
}
use superspace.Extensions.Policy.Approval.{Some, any-Some, Some-any}

component_eq→≡ : (a b : Component) → component_eq a b ≡ true → a ≡ b
unfolding component_eq
component_eq→≡ (prefix s) (prefix t) h = ap prefix (text_eq→≡ s t h)
component_eq→≡ root_dir root_dir h = refl
component_eq→≡ cur_dir cur_dir h = refl
component_eq→≡ parent_dir parent_dir h = refl
component_eq→≡ (normal s) (normal t) h = ap normal (text_eq→≡ s t h)
component_eq→≡ _ _ h = ground arith

starts_with-append :
    (ps rs : List Component)
    → starts_with ps rs ≡ true
    → (rest : List Component) × (ps ≡ rs ++ rest)
unfolding starts_with
starts_with-append ps [] h = (ps, refl)
starts_with-append [] (r ∷ rs) h = absurd (ground (arith, h))
starts_with-append (p ∷ ps) (r ∷ rs) h =
    let (rest, e) = starts_with-append ps rs (ground arith) in
    (rest, ap₂ ◌∷◌ (component_eq→≡ p r (ground arith)) e)

-- Behind the root a path without `..` has nothing unsafe.
inner_safe : (cs : List Component) → All IsInner cs → has_parent cs ≡ false → any_unsafe cs ≡ false
unfolding has_parent any_unsafe
inner_safe [] h n = refl
inner_safe (prefix p ∷ cs) h n = absurd (ground (arith, h.0))
inner_safe (root_dir ∷ cs) h n = absurd (ground (arith, h.0))
inner_safe (cur_dir ∷ cs) h n = absurd (ground (arith, h.0))
inner_safe (parent_dir ∷ cs) h n = cc
inner_safe (normal m ∷ cs) h n = inner_safe cs h.1 n

any_unsafe-append : (xs ys : List Component) → any_unsafe (xs ++ ys) ≡ false → any_unsafe ys ≡ false
unfolding any_unsafe
any_unsafe-append [] ys h = h
any_unsafe-append (x ∷ xs) ys h = any_unsafe-append xs ys (ground arith)

-- A path below a root, both absolute and the path without `..`, leads to the root's directory or
-- below it.
starts_with-IsWithin :
    (path root : Text)
    → is_absolute path ≡ true
    → is_absolute root ≡ true
    → has_parent (components path) ≡ false
    → starts_with (components path) (components root) ≡ true
    → IsWithin (resolve [] (components root)) (resolve [] (components path))
starts_with-IsWithin path root a b n h =
    let (ps, e, inside) = components-absolute path a in
    let (rs, f, _) = components-absolute root b in
    let (rest, split) = starts_with-append (components path) (components root) h in
    let tails : ps ≡ rs ++ rest = ground (arith, e, f, split) in
    let safe : any_unsafe (rs ++ rest) ≡ false =
      rw (← tails) (inner_safe ps inside (unfold has_parent in ground (arith, e, n))) in
    rw (split, resolve-append [] (components root) rest)
      (resolve-IsWithin (resolve [] (components root)) (resolve [] (components root)) rest
        (any_unsafe-append rs rest safe) here)

-- The grant allows the access, and the path's directory is the grant's or below it.
abbrev pub Confines : Text → Bool → Capability → Type 0
Confines path write (filesystem g) =
    IsWithin (resolve [] (components g.path)) (resolve [] (components path))
    × ((not write || g.write) ≡ true)
Confines path write _ = ⊥

allows_path-Confines :
    (path : Text) (write : Bool) (c : Capability)
    → is_absolute path ≡ true
    → has_parent (components path) ≡ false
    → allows_path path write c ≡ true
    → Confines path write c
unfolding allows_path
allows_path-Confines path write (filesystem g) a n e =
    (starts_with-IsWithin path g.path a (ground arith) n (ground arith), ground arith)
allows_path-Confines path write _ a n e = cc

-- A path is admitted only if it is absolute and, followed from the filesystem's root, leads to the
-- directory of an approved grant or below it; and to write, that grant has to allow it.
pub require_filesystem-Confines :
    (self : CapabilityPolicy) (path : Text) (write : Bool)
    → require_filesystem self path write ≡ ok tt
    → (is_absolute path ≡ true) × Some (Confines path write) self.approved
unfolding require_filesystem
require_filesystem-Confines self path write h =
    let absolute : is_absolute path ≡ true = ground arith in
    let straight : has_parent (components path) ≡ false = ground arith in
    (
      absolute,
      any-Some (Confines path write) (allows_path path write) self.approved
          (λ c e. allows_path-Confines path write c absolute straight e) (ground arith),
    )

-- The text is one of those listed.
abbrev pub Lists : Text → List Text → Type 0
Lists t [] = ⊥
Lists t (u ∷ us) = (u ≡ t) ⊎ Lists t us

names_iff : (us : List Text) (t : Text) → (names us t ≡ true) ↔ Lists t us
unfolding names
names_iff [] t = (λ h. cc, λ h. absurd h)
names_iff (u ∷ us) t = (
  λ h. elim (Bool-cases (text_eq u t)) [
    | inl same ↦ inl (text_eq→≡ u t same)
    | inr other ↦ inr ((names_iff us t).0 (ground (arith, other, h)))
  ],
  elim [
    | inl same ↦ rw (same, text_eq_refl t) refl
    | inr later ↦ ground (arith, (names_iff us t).1 later)
  ],
)

abbrev pub ListsOrigin : Text → Capability → Type 0
ListsOrigin t (network g) = Lists t g.origins
ListsOrigin t _ = ⊥

abbrev pub ListsExecutable : Text → Capability → Type 0
ListsExecutable t (process executables) = Lists t executables
ListsExecutable t _ = ⊥

allows_network_iff : (t : Text) (c : Capability) → (allows_network t c ≡ true) ↔ ListsOrigin t c
unfolding allows_network
allows_network_iff t (network g) = names_iff g.origins t
allows_network_iff t clipboard_read = (λ h. cc, λ h. absurd h)
allows_network_iff t clipboard_write = (λ h. cc, λ h. absurd h)
allows_network_iff t (filesystem g) = (λ h. cc, λ h. absurd h)
allows_network_iff t (process g) = (λ h. cc, λ h. absurd h)

allows_process_iff : (t : Text) (c : Capability) → (allows_process t c ≡ true) ↔ ListsExecutable t c
unfolding allows_process
allows_process_iff t (process executables) = names_iff executables t
allows_process_iff t clipboard_read = (λ h. cc, λ h. absurd h)
allows_process_iff t clipboard_write = (λ h. cc, λ h. absurd h)
allows_process_iff t (filesystem g) = (λ h. cc, λ h. absurd h)
allows_process_iff t (network g) = (λ h. cc, λ h. absurd h)

-- An origin is allowed exactly when an approved network grant lists it, and an executable exactly
-- when an approved process grant does: nothing broader is ever matched.
pub require_network-process_iff :
    (self : CapabilityPolicy) (t : Text)
    → ((require_network self t ≡ ok tt) ↔ Some (ListsOrigin t) self.approved)
      × ((require_process self t ≡ ok tt) ↔ Some (ListsExecutable t) self.approved)
unfolding require_network require_process
require_network-process_iff self t = (
  (
    λ h.
        any-Some (ListsOrigin t) (allows_network t) self.approved (λ c. (allows_network_iff t c).0)
          (ground arith),
    λ h.
        rw
          (Some-any (ListsOrigin t) (allows_network t) self.approved
            (λ c. (allows_network_iff t c).1) h)
          refl,
  ),
  (
    λ h.
        any-Some (ListsExecutable t) (allows_process t) self.approved
          (λ c. (allows_process_iff t c).0) (ground arith),
    λ h.
        rw
          (Some-any (ListsExecutable t) (allows_process t) self.approved
            (λ c. (allows_process_iff t c).1) h)
          refl,
  ),
)
