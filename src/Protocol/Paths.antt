-- ===== src/Protocol/Paths.antt =====
-- The part of `std::path` that the program uses, on Unix: a path is text, `/` separates.
-- `Component::Prefix` belongs to Windows and no Unix path has one.
pub mod Resolve
use superspace.Base.{
  ℕ, Bool, true, false, not, ◌&&◌, ◌||◌, List, [], ◌∷◌, ◌++◌, ◌==◌, if◌then◌else◌, Option, none,
  some,
}
use superspace.Base.Text.{Text, text_eq}

pub data Component : Type 0 where
  prefix : Text → Component
  root_dir cur_dir parent_dir : Component
  normal : Text → Component

abbrev pub slash : ℕ
slash = b'/'

-- `Path::is_absolute`
unfoldable pub is_absolute : Text → Bool
is_absolute [] = false
is_absolute (c ∷ s) = c == slash

-- A character before the first part of a split.
abbrev push_first : ℕ → List Text → List Text
push_first c [] = (c ∷ []) ∷ []
push_first c (p ∷ ps) = (c ∷ p) ∷ ps

unfoldable pub split : Text → List Text
split [] = [] ∷ []
split (c ∷ s) = let parts = split s in if c == slash then [] ∷ parts else push_first c parts

abbrev pub dot : Text
dot = b'.' ∷ []

abbrev pub dot_dot : Text
dot_dot = b'.' ∷ b'.' ∷ []

-- A part behind the first: empty parts and `.` are skipped.
unfoldable pub inner : List Text → List Component
inner [] = []
inner (p ∷ ps) =
    let rest = inner ps in
    if text_eq p [] || text_eq p dot
    then rest
    else if text_eq p dot_dot
    then parent_dir ∷ rest
    else normal p ∷ rest

-- The first part: of a path with a root it is skipped as the others are; `.` stands there.
unfoldable pub first : List Text → List Component
unfolding inner
first [] = []
first (p ∷ ps) = if text_eq p dot then cur_dir ∷ inner ps else inner (p ∷ ps)

-- `Path::components`
unfoldable pub components : Text → List Component
unfolding is_absolute split first
components s = if is_absolute s then root_dir ∷ inner (split s) else first (split s)
