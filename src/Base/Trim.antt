-- ===== src/Base/Trim.antt =====
-- `str::trim` twice is `str::trim` once.
use superspace.Base.Tests.{if◌then◌else◌, Bool-cases}
use superspace.Base.Text.{Text, is_whitespace, trim_start, trim}
use Prim.Native.Nat.{ℕ}
use mathlib.Core.Path.{◌≡◌, refl, sym, ap, ◌∙◌}
use mathlib.Core.Logic.{inl, inr}
use mathlib.Core.Bool.{false}
use mathlib.Core.List.{[], ◌∷◌, ◌++◌, reverse, reverse-cons, reverse-append}

-- Whitespace at the end dropped, from the front.
abbrev cons_unless : ℕ → Text → Text
cons_unless c [] = if is_whitespace c then [] else c ∷ []
cons_unless c (d ∷ t) = c ∷ d ∷ t

drop_end : Text → Text
drop_end [] = []
drop_end (c ∷ t) = cons_unless c (drop_end t)

abbrev then_last : ℕ → Text → Text
then_last c [] = if is_whitespace c then [] else c ∷ []
then_last c (d ∷ t) = (d ∷ t) ++ c ∷ []

trim_start-append : (xs : Text) (c : ℕ) → trim_start (xs ++ c ∷ []) ≡ then_last c (trim_start xs)
unfolding trim_start
trim_start-append [] c = refl
trim_start-append (x ∷ xs) c = elim (Bool-cases (is_whitespace x)) [
  | inl e ↦ rw e (trim_start-append xs c)
  | inr e ↦ rw e refl
]

cons_unless-append : (c : ℕ) (ys : Text) (d : ℕ) → cons_unless c (ys ++ d ∷ []) ≡ c ∷ (ys ++ d ∷ [])
cons_unless-append c [] d = refl
cons_unless-append c (y ∷ ys) d = refl

reverse-last : (c : ℕ) (xs : Text) → reverse (xs ++ c ∷ []) ≡ c ∷ reverse xs
reverse-last c xs = reverse-append xs (c ∷ [])

reverse-then_last : (c : ℕ) (xs : Text) → reverse (then_last c xs) ≡ cons_unless c (reverse xs)
reverse-then_last c [] = elim (Bool-cases (is_whitespace c)) [
  | inl e ↦ rw e refl
  | inr e ↦ rw e refl
]
reverse-then_last c (d ∷ t) =
    reverse-last c (d ∷ t)
    ∙ ap (◌∷◌ c) (reverse-cons d t)
    ∙ sym (cons_unless-append c (reverse t) d)
    ∙ ap (cons_unless c) (sym (reverse-cons d t))

reverse-trim_start : (t : Text) → reverse (trim_start (reverse t)) ≡ drop_end t
unfolding drop_end trim_start
reverse-trim_start [] = refl
reverse-trim_start (c ∷ t) =
    ap (λ u. reverse (trim_start u)) (reverse-cons c t)
    ∙ ap reverse (trim_start-append (reverse t) c)
    ∙ reverse-then_last c (trim_start (reverse t))
    ∙ ap (cons_unless c) (reverse-trim_start t)

drop_end-cons_unless :
    (c : ℕ) (t : Text) → drop_end t ≡ t → drop_end (cons_unless c t) ≡ cons_unless c t
unfolding drop_end
drop_end-cons_unless c [] h = elim (Bool-cases (is_whitespace c)) [
  | inl e ↦ rw e refl
  | inr e ↦ rw (e, e) refl
]
drop_end-cons_unless c (d ∷ t) h = ap (cons_unless c) h

drop_end-drop_end : (t : Text) → drop_end (drop_end t) ≡ drop_end t
unfolding drop_end
drop_end-drop_end [] = refl
drop_end-drop_end (c ∷ t) = drop_end-cons_unless c (drop_end t) (drop_end-drop_end t)

-- A text that begins with no whitespace.
abbrev Starts : Text → Type 0
Starts [] = Unit
Starts (c ∷ t) = is_whitespace c ≡ false

trim_start-Starts : (t : Text) → Starts (trim_start t)
unfolding trim_start
trim_start-Starts [] = tt
trim_start-Starts (c ∷ t) = elim (Bool-cases (is_whitespace c)) [
  | inl e ↦ rw e (trim_start-Starts t)
  | inr e ↦ rw e e
]

Starts-cons_unless : (c : ℕ) (t : Text) → is_whitespace c ≡ false → Starts (cons_unless c t)
Starts-cons_unless c [] h = rw h h
Starts-cons_unless c (d ∷ t) h = h

Starts-drop_end : (t : Text) → Starts t → Starts (drop_end t)
unfolding drop_end
Starts-drop_end [] h = tt
Starts-drop_end (c ∷ t) h = Starts-cons_unless c (drop_end t) h

Starts-trim_start : (t : Text) → Starts t → trim_start t ≡ t
unfolding trim_start
Starts-trim_start [] h = refl
Starts-trim_start (c ∷ t) h = rw h refl

trim-drop_end : (s : Text) → trim s ≡ drop_end (trim_start s)
unfolding trim
trim-drop_end s = reverse-trim_start (trim_start s)

pub trim-trim : (s : Text) → trim (trim s) ≡ trim s
trim-trim s =
    trim-drop_end (trim s)
    ∙ ap (λ t. drop_end (trim_start t)) (trim-drop_end s)
    ∙ ap drop_end (
        Starts-trim_start (drop_end (trim_start s))
          (Starts-drop_end (trim_start s) (trim_start-Starts s)))
    ∙ drop_end-drop_end (trim_start s)
    ∙ sym (trim-drop_end s)
