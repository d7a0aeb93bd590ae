-- ===== src/Base/Sets.antt =====
-- `HashSet` of numbers as a list: membership, insertion, removal.
use superspace.Base.Tests.{◌==◌, if◌then◌else◌}
use superspace.Base.Lists.{retain}
use Prim.Native.Nat.{ℕ}
use mathlib.Core.Path.{◌≡◌, refl}
use mathlib.Core.Bool.{Bool, false, not, ◌||◌}
use mathlib.Core.List.{List, [], ◌∷◌, ◌++◌}
use native.Mathlib.Omega.{arith}

abbrev pub contains : ℕ → List ℕ → Bool
contains a [] = false
contains a (x ∷ xs) = (a == x) || contains a xs

abbrev pub remove : ℕ → List ℕ → List ℕ
remove a = retain (λ x. not (a == x))

-- No number stands twice in the list.
abbrev pub IsDistinct : List ℕ → Type 0
IsDistinct [] = Unit
IsDistinct (x ∷ xs) = (contains x xs ≡ false) × IsDistinct xs

pub contains-append :
    (a : ℕ) (xs ys : List ℕ) → contains a (xs ++ ys) ≡ (contains a xs || contains a ys)
contains-append a [] ys = refl
contains-append a (x ∷ xs) ys = ground (arith, contains-append a xs ys)

pub contains-remove :
    (a b : ℕ) (xs : List ℕ) → contains a (remove b xs) ≡ (if b == a then false else contains a xs)
contains-remove a b [] = ground arith
contains-remove a b (x ∷ xs) = ground (arith, contains-remove a b xs)

pub IsDistinct-append :
    (xs : List ℕ) (a : ℕ) → IsDistinct xs → contains a xs ≡ false → IsDistinct (xs ++ a ∷ [])
IsDistinct-append [] a d h = (refl, tt)
IsDistinct-append (x ∷ xs) a d h =
    ground (arith, IsDistinct-append xs a d.1, contains-append x xs (a ∷ []))
