-- ===== src/Protocol/Paths/Resolve.antt =====
-- What a path means below a directory, following its components one by one: the meaning
-- against which the path checks of the program are stated.
use superspace.Base.{◌≡◌, refl, ◌⊎◌, inl, inr, true, ◌||◌, List, [], ◌∷◌, ◌++◌, All, Bool-cases}
use superspace.Base.Text.{Text, text_eq}
use superspace.Protocol.Paths.{
  Component, prefix, root_dir, cur_dir, parent_dir, normal, dot, dot_dot, is_absolute, split, inner,
  components,
}

-- A directory as the list of its names, innermost first; `..` above the root stays there.
abbrev pub Directory : Type 0
Directory = List Text

abbrev parent : Directory → Directory
parent [] = []
parent (d ∷ ds) = ds

enter : Directory → Component → Directory
enter d (prefix p) = []
enter d root_dir = []
enter d cur_dir = d
enter d parent_dir = parent d
enter d (normal n) = n ∷ d

unfoldable pub resolve : Directory → List Component → Directory
unfolding enter
resolve d [] = d
resolve d (c ∷ cs) = resolve (enter d c) cs

-- `d` is `root` or lies below it.
pub data IsWithin (root : Directory) : Directory → Type 0 where
  here : IsWithin root root
  below : (n : Text) {d : Directory} → IsWithin root d → IsWithin root (n ∷ d)

-- A component that stands behind the first: a name or `..`.
abbrev pub IsInner : Component → Type 0
IsInner c = (c ≡ parent_dir) ⊎ ((n : Text) × (c ≡ normal n))

inner-All : (ps : List Text) → All IsInner (inner ps)
unfolding inner
inner-All [] = tt
inner-All (p ∷ ps) = elim (Bool-cases (text_eq p [] || text_eq p dot)) [
  | inl skipped ↦ rw skipped (inner-All ps)
  | inr kept ↦ elim (Bool-cases (text_eq p dot_dot)) [
    | inl up ↦ rw (kept, up) (inl refl, inner-All ps)
    | inr name ↦ rw (kept, name) (inr (p, refl), inner-All ps)
  ]
]

-- An absolute path is the root and what stands behind it.
pub components-absolute :
    (s : Text)
    → is_absolute s ≡ true
    → (cs : List Component) × (components s ≡ root_dir ∷ cs) × All IsInner cs
unfolding components
components-absolute s h = (inner (split s), rw h refl, inner-All (split s))

pub resolve-append :
    (d : Directory) (xs ys : List Component) → resolve d (xs ++ ys) ≡ resolve (resolve d xs) ys
unfolding resolve
resolve-append d [] ys = refl
resolve-append d (x ∷ xs) ys = resolve-append (enter d x) xs ys
