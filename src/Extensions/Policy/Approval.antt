-- ===== src/Extensions/Policy/Approval.antt =====
-- What was approved, one by one (crates/extensions/src/policy.rs).
use superspace.Base.{
  ◌≡◌, refl, sym, ap, ap₂, ◌⊎◌, inl, inr, ◌↔◌, Bool, true, false, List, [], ◌∷◌, arith, Bool-cases,
}
use superspace.Base.Result.{ok}
use superspace.Base.Text.{Text, text_eq→≡, text_eq_refl}
use superspace.Extensions.Policy.{
  Capability, clipboard_read, clipboard_write, filesystem, network, process, CapabilityPolicy,
  bool_eq, texts_eq, capability_eq, any, require,
}

-- One of the approved capabilities satisfies the condition.
abbrev pub Some : (Capability → Type 0) → List Capability → Type 0
Some P [] = ⊥
Some P (c ∷ cs) = P c ⊎ Some P cs

pub any-Some :
    (P : Capability → Type 0) (test : Capability → Bool) (cs : List Capability)
    → ((c : Capability) → test c ≡ true → P c)
    → any test cs ≡ true
    → Some P cs
unfolding any
any-Some P test [] f h = cc
any-Some P test (c ∷ cs) f h = elim (Bool-cases (test c)) [
  | inl e ↦ inl (f c e)
  | inr e ↦ inr (any-Some P test cs f (ground (arith, e, h)))
]

pub Some-any :
    (P : Capability → Type 0) (test : Capability → Bool) (cs : List Capability)
    → ((c : Capability) → P c → test c ≡ true)
    → Some P cs
    → any test cs ≡ true
unfolding any
Some-any P test [] f x = absurd x
Some-any P test (c ∷ cs) f (inl p) = rw (f c p) refl
Some-any P test (c ∷ cs) f (inr q) = ground (arith, Some-any P test cs f q)

bool_eq→≡ : (a b : Bool) → bool_eq a b ≡ true → a ≡ b
unfolding bool_eq
bool_eq→≡ true b h = sym h
bool_eq→≡ false b h = ground arith

texts_eq→≡ : (ss ts : List Text) → texts_eq ss ts ≡ true → ss ≡ ts
unfolding texts_eq
texts_eq→≡ [] [] h = refl
texts_eq→≡ [] (t ∷ ts) h = cc
texts_eq→≡ (s ∷ ss) [] h = cc
texts_eq→≡ (s ∷ ss) (t ∷ ts) h =
    ap₂ ◌∷◌ (text_eq→≡ s t (ground arith)) (texts_eq→≡ ss ts (ground arith))

texts_eq_refl : (ss : List Text) → texts_eq ss ss ≡ true
unfolding texts_eq
texts_eq_refl [] = refl
texts_eq_refl (s ∷ ss) = ground (arith, text_eq_refl s, texts_eq_refl ss)

capability_eq→≡ : (a b : Capability) → capability_eq a b ≡ true → a ≡ b
unfolding capability_eq
capability_eq→≡ clipboard_read clipboard_read h = refl
capability_eq→≡ clipboard_write clipboard_write h = refl
capability_eq→≡ (filesystem g) (filesystem k) h =
    let same_path = text_eq→≡ g.path k.path (ground arith) in
    let same_write = bool_eq→≡ g.write k.write (ground arith) in cc
capability_eq→≡ (network g) (network k) h = let same = texts_eq→≡ g.origins k.origins h in cc
capability_eq→≡ (process g) (process k) h = ap process (texts_eq→≡ g k h)
capability_eq→≡ _ _ h = ground arith

capability_eq_refl : (a : Capability) → capability_eq a a ≡ true
unfolding capability_eq bool_eq
capability_eq_refl clipboard_read = refl
capability_eq_refl clipboard_write = refl
capability_eq_refl (filesystem g) = ground (arith, text_eq_refl g.path)
capability_eq_refl (network g) = texts_eq_refl g.origins
capability_eq_refl (process g) = texts_eq_refl g

-- A capability is granted exactly when that very capability was approved.
pub require_iff :
    (self : CapabilityPolicy) (c : Capability)
    → (require self c ≡ ok tt) ↔ Some (λ a. a ≡ c) self.approved
unfolding require
require_iff self c = (
  λ h.
      any-Some (λ a. a ≡ c) (λ a. capability_eq a c) self.approved (λ a e. capability_eq→≡ a c e)
        (ground arith),
  λ h.
      rw
        (Some-any (λ a. a ≡ c) (λ a. capability_eq a c) self.approved
          (λ a e. rw e (capability_eq_refl c)) h)
        refl,
)
