-- ===== src/Base/Sort.antt =====
-- A stable sort by a comparison, as `slice::sort_by` specifies it: no pair of neighbours is the wrong
-- way round, and elements that compare equal keep their order.
use superspace.Base.Tests.{if◌then◌else◌, Bool-cases}
use superspace.Base.Lists.{retain, All}
use Prim.Native.Nat.{Ordering}
use mathlib.Core.Path.{◌≡◌, ◌∙◌, refl}
use mathlib.Core.Logic.{inl, inr}
use mathlib.Core.Bool.{Bool, true, false}
use mathlib.Core.List.{List, [], ◌∷◌, Perm}
use mathlib.Core.List.Perm
use native.Mathlib.Omega.{arith}

abbrev pub is_gt : Ordering → Bool
is_gt Ordering.gt = true
is_gt _ = false

abbrev pub is_eq : Ordering → Bool
is_eq Ordering.eq = true
is_eq _ = false

module _ {ℓ} {A : Type ℓ} (cmp : A → A → Ordering) where
  unfoldable pub insert : A → List A → List A
  insert x [] = x ∷ []
  insert x (y ∷ ys) = let rest = insert x ys in if is_gt (cmp x y) then y ∷ rest else x ∷ y ∷ ys

  -- `slice::sort_by`
  unfoldable pub sort_by : List A → List A
  unfolding insert
  sort_by [] = []
  sort_by (x ∷ xs) = insert x (sort_by xs)

  pub insert-perm : (x : A) (ys : List A) → Perm (insert x ys) (x ∷ ys)
  unfolding insert
  insert-perm x [] = Perm.refl (x ∷ [])
  insert-perm x (y ∷ ys) = elim (Bool-cases (is_gt (cmp x y))) [
    | inl later ↦ rw later (Perm.trans (Perm.cons y (insert-perm x ys)) (Perm.swap x y ys))
    | inr first ↦ rw first (Perm.refl (x ∷ y ∷ ys))
  ]

  pub sort_by-perm : (xs : List A) → Perm (sort_by xs) xs
  unfolding sort_by
  sort_by-perm [] = Perm.refl []
  sort_by-perm (x ∷ xs) = Perm.trans (insert-perm x (sort_by xs)) (Perm.cons x (sort_by-perm xs))

  insert-All {κ} : (P : A → Type κ) (x : A) (ys : List A) → P x → All P ys → All P (insert x ys)
  unfolding insert
  insert-All P x [] px ps = (px, tt)
  insert-All P x (y ∷ ys) px ps = elim (Bool-cases (is_gt (cmp x y))) [
    | inl later ↦ rw later (ps.0, insert-All P x ys px ps.1)
    | inr first ↦ rw first (px, ps)
  ]

  pub sort_by-All {κ} : (P : A → Type κ) (xs : List A) → All P xs → All P (sort_by xs)
  unfolding sort_by
  sort_by-All P [] ps = tt
  sort_by-All P (x ∷ xs) ps = insert-All P x (sort_by xs) ps.0 (sort_by-All P xs ps.1)

  -- The element does not come after the first of the list.
  abbrev Follows : A → List A → Type 0
  Follows x [] = Unit
  Follows x (y ∷ ys) = is_gt (cmp x y) ≡ false

  -- No element comes after its neighbour on the right.
  abbrev pub IsSorted : List A → Type 0
  IsSorted [] = Unit
  IsSorted (x ∷ xs) = Follows x xs × IsSorted xs

  module _ (asym : (a b : A) → is_gt (cmp a b) ≡ true → is_gt (cmp b a) ≡ false) where
    insert-Follows :
        (x y : A) (ys : List A) → is_gt (cmp x y) ≡ true → Follows y ys → Follows y (insert x ys)
    unfolding insert
    insert-Follows x y [] h f = asym x y h
    insert-Follows x y (z ∷ ys) h f = elim (Bool-cases (is_gt (cmp x z))) [
      | inl later ↦ rw later f
      | inr first ↦ rw first (asym x y h)
    ]

    insert-IsSorted : (x : A) (ys : List A) → IsSorted ys → IsSorted (insert x ys)
    unfolding insert
    insert-IsSorted x [] s = (tt, tt)
    insert-IsSorted x (y ∷ ys) s = elim (Bool-cases (is_gt (cmp x y))) [
      | inl later ↦ rw later (insert-Follows x y ys later s.0, insert-IsSorted x ys s.1)
      | inr first ↦ rw first (first, s)
    ]

    pub sort_by-IsSorted : (xs : List A) → IsSorted (sort_by xs)
    unfolding sort_by
    sort_by-IsSorted [] = tt
    sort_by-IsSorted (x ∷ xs) = insert-IsSorted x (sort_by xs) (sort_by-IsSorted xs)

  -- The elements that compare equal to one of them.
  abbrev pub class_of : A → List A → List A
  class_of a = retain (λ b. is_eq (cmp a b))

  module _ (same : (a b c : A) → is_eq (cmp a b) ≡ true → cmp a c ≡ cmp b c) where
    class_of-insert : (a x : A) (ys : List A) → class_of a (insert x ys) ≡ class_of a (x ∷ ys)
    unfolding insert
    class_of-insert a x [] = refl
    class_of-insert a x (y ∷ ys) = elim (Bool-cases (is_gt (cmp x y))) [
      | inr first ↦ rw first refl
      | inl later ↦ elim (Bool-cases (is_eq (cmp a x))) [
        | inr other ↦ rw (later, class_of-insert a x ys, other) refl
        | inl like ↦
            let gt : cmp a y ≡ Ordering.gt = same a x y like ∙ ground (arith, later) in
            rw (later, class_of-insert a x ys, like, gt) refl
      ]
    ]

    -- Stability: each class stands in its old order.
    pub class_of-sort_by : (a : A) (xs : List A) → class_of a (sort_by xs) ≡ class_of a xs
    unfolding sort_by
    class_of-sort_by a [] = refl
    class_of-sort_by a (x ∷ xs) =
        class_of-insert a x (sort_by xs) ∙ ground (arith, class_of-sort_by a xs)
