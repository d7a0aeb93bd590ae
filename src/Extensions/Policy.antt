-- ===== src/Extensions/Policy.antt =====
-- crates/extensions/src/policy.rs: the authority that a user has approved for an extension. The
-- capabilities are those of crates/extensions/src/manifest.rs; the `HashSet` of approved ones is a
-- list whose order nothing reads.
pub mod Approval
pub mod Confinement
mod Examples
use superspace.Base.{Bool, true, false, not, ◌&&◌, ◌||◌, List, [], ◌∷◌, if◌then◌else◌}
use superspace.Base.Result.{Result, ok, err, guard}
use superspace.Base.Text.{Text, text_eq}
use superspace.Protocol.Paths.{
  Component, prefix, root_dir, cur_dir, parent_dir, normal, is_absolute, components,
}

pub record FilesystemGrant : Type 0 where
  pub path : Text
  pub write : Bool

pub record NetworkGrant : Type 0 where
  pub origins : List Text

pub data Capability : Type 0 where
  clipboard_read clipboard_write : Capability
  filesystem : FilesystemGrant → Capability
  network : NetworkGrant → Capability
  process : List Text → Capability

pub data PolicyError : Type 0 where
  denied : PolicyError

pub record CapabilityPolicy : Type 0 where
  pub approved : List Capability

-- `iter().any(|approved| approved == text)`
unfoldable pub names : List Text → Text → Bool
names [] text = false
names (approved ∷ rest) text = text_eq approved text || names rest text

bool_eq : Bool → Bool → Bool
bool_eq true b = b
bool_eq false b = not b

texts_eq : List Text → List Text → Bool
texts_eq [] [] = true
texts_eq [] (t ∷ ts) = false
texts_eq (s ∷ ss) [] = false
texts_eq (s ∷ ss) (t ∷ ts) = text_eq s t && texts_eq ss ts

-- The derived `Eq`.
pub capability_eq : Capability → Capability → Bool
unfolding bool_eq texts_eq
capability_eq clipboard_read clipboard_read = true
capability_eq clipboard_write clipboard_write = true
capability_eq (filesystem g) (filesystem h) = text_eq g.path h.path && bool_eq g.write h.write
capability_eq (network g) (network h) = texts_eq g.origins h.origins
capability_eq (process g) (process h) = texts_eq g h
capability_eq _ _ = false

unfoldable pub any : (Capability → Bool) → List Capability → Bool
any test [] = false
any test (c ∷ cs) = test c || any test cs

-- `then_some(()).ok_or(PolicyError::Denied)`
abbrev allow : Bool → Result PolicyError (Unit {0})
allow b = guard b denied

pub require : CapabilityPolicy → Capability → Result PolicyError (Unit {0})
unfolding any capability_eq
require self capability = allow (any (λ approved. capability_eq approved capability) self.approved)

allows_network : Text → Capability → Bool
unfolding names
allows_network origin (network grant) = names grant.origins origin
allows_network origin _ = false

pub require_network : CapabilityPolicy → Text → Result PolicyError (Unit {0})
unfolding any allows_network
require_network self origin = allow (any (allows_network origin) self.approved)

allows_process : Text → Capability → Bool
unfolding names
allows_process executable (process executables) = names executables executable
allows_process executable _ = false

pub require_process : CapabilityPolicy → Text → Result PolicyError (Unit {0})
unfolding any allows_process
require_process self executable = allow (any (allows_process executable) self.approved)

component_eq : Component → Component → Bool
component_eq (prefix s) (prefix t) = text_eq s t
component_eq root_dir root_dir = true
component_eq cur_dir cur_dir = true
component_eq parent_dir parent_dir = true
component_eq (normal s) (normal t) = text_eq s t
component_eq _ _ = false

-- `Path::starts_with`, by components.
starts_with : List Component → List Component → Bool
unfolding component_eq
starts_with path [] = true
starts_with [] (r ∷ rs) = false
starts_with (p ∷ ps) (r ∷ rs) = component_eq p r && starts_with ps rs

has_parent : List Component → Bool
has_parent [] = false
has_parent (parent_dir ∷ cs) = true
has_parent (_ ∷ cs) = has_parent cs

allows_path : Text → Bool → Capability → Bool
unfolding starts_with
allows_path path write (filesystem grant) =
    is_absolute grant.path
    && starts_with (components path) (components grant.path)
    && (not write || grant.write)
allows_path path write _ = false

pub require_filesystem : CapabilityPolicy → Text → Bool → Result PolicyError (Unit {0})
unfolding any allows_path has_parent
require_filesystem self path write =
    if not (is_absolute path) || has_parent (components path)
    then err denied
    else allow (any (allows_path path write) self.approved)
