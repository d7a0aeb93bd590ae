-- ===== src/Protocol/Message/Validation.antt =====
-- What the validation of crates/protocol/src/message.rs guarantees.
use superspace.Base.{false, ◌≡◌, ◌≢◌, refl, ◌⊎◌, inl, inr, none, List, [], ◌∷◌, arith, All, ◌↔◌}
use superspace.Base.Text.{Text, trim}
use superspace.Protocol.Paths.{Component, root_dir, cur_dir, parent_dir, normal, components, prefix}
use superspace.Protocol.Paths.Resolve.{Directory, resolve, IsWithin, here, below}
use superspace.Protocol.Message.{
  TransferEntry, TransferManifest, any_unsafe, validate_entry, validate_entries, validate,
}

pub resolve-IsWithin :
    (root d : Directory) (cs : List Component)
    → any_unsafe cs ≡ false
    → IsWithin root d
    → IsWithin root (resolve d cs)
unfolding resolve any_unsafe
resolve-IsWithin root d [] h w = w
resolve-IsWithin root d (prefix p ∷ cs) h w = cc
resolve-IsWithin root d (root_dir ∷ cs) h w = cc
resolve-IsWithin root d (cur_dir ∷ cs) h w = resolve-IsWithin root d cs h w
resolve-IsWithin root d (parent_dir ∷ cs) h w = cc
resolve-IsWithin root d (normal n ∷ cs) h w = resolve-IsWithin root (n ∷ d) cs h (below n w)

pub validate_entry-IsWithin :
    (e : TransferEntry) (root : Directory)
    → validate_entry e ≡ none
    → IsWithin root (resolve root (components e.relative_path))
unfolding validate_entry
validate_entry-IsWithin e root h =
    resolve-IsWithin root root (components e.relative_path) (ground arith) here

abbrev pub StaysBelow : Directory → TransferEntry → Type 0
StaysBelow root e = IsWithin root (resolve root (components e.relative_path))

validate_entries-All :
    (root : Directory) (es : List TransferEntry)
    → validate_entries es ≡ none
    → All (StaysBelow root) es
unfolding validate_entries
validate_entries-All root [] h = tt
validate_entries-All root (e ∷ es) h =
    (validate_entry-IsWithin e root (ground arith), validate_entries-All root es (ground arith))

-- An accepted manifest has a name and an entry, and every entry's path, followed from any
-- directory, ends at that directory or below it.
pub validate-StaysBelow :
    (m : TransferManifest) (root : Directory)
    → validate m ≡ none
    → (m.entries ≢ []) × (trim m.name ≢ []) × All (StaysBelow root) m.entries
unfolding validate
validate-StaysBelow m root h =
    (ground arith, ground arith, validate_entries-All root m.entries (ground arith))

-- A component that stays where it is or goes one level down.
abbrev pub IsPlain : Component → Type 0
IsPlain c = (c ≡ cur_dir) ⊎ ((n : Text) × (c ≡ normal n))

any_unsafe_iff : (cs : List Component) → (any_unsafe cs ≡ false) ↔ All IsPlain cs
unfolding any_unsafe
any_unsafe_iff [] = (λ _. tt, λ _. refl)
any_unsafe_iff (prefix p ∷ cs) = (λ h. cc, λ h. ground arith)
any_unsafe_iff (root_dir ∷ cs) = (λ h. cc, λ h. ground arith)
any_unsafe_iff (parent_dir ∷ cs) = (λ h. cc, λ h. ground arith)
any_unsafe_iff (cur_dir ∷ cs) =
    (λ h. (inl refl, (any_unsafe_iff cs).0 h), λ h. (any_unsafe_iff cs).1 h.1)
any_unsafe_iff (normal n ∷ cs) =
    (λ h. (inr (n, refl), (any_unsafe_iff cs).0 h), λ h. (any_unsafe_iff cs).1 h.1)

-- An entry is accepted exactly when its path is not empty and none of its components is a root,
-- a prefix or `..`; the test for an absolute path refuses nothing more.
pub validate_entry_iff :
    (e : TransferEntry)
    → (validate_entry e ≡ none)
      ↔ ((e.relative_path ≢ []) × All IsPlain (components e.relative_path))
unfolding validate_entry components
validate_entry_iff e = (
  λ h. (ground arith, (any_unsafe_iff (components e.relative_path)).0 (ground arith)),
  λ h. ground (arith, (any_unsafe_iff (components e.relative_path)).1 h.1),
)
