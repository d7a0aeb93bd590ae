-- ===== src/Extensions/Policy/Examples.antt =====
-- The policy of crates/extensions/src/policy.rs on examples.
use superspace.Base.{◌≡◌, refl, ◌↔◌, true, false, [], ◌∷◌}
use superspace.Base.Result.{ok, err}
use superspace.Base.Text.{Text}
use superspace.Protocol.Paths.{is_absolute}
use superspace.Extensions.Policy.{
  clipboard_read, filesystem, network, CapabilityPolicy, denied, require, require_network,
  require_process, require_filesystem,
}
use superspace.Extensions.Policy.Approval.{Some, require_iff}
use superspace.Extensions.Policy.Confinement.{
  Confines, ListsOrigin, ListsExecutable, require_filesystem-Confines, require_network-process_iff,
}

-- `/a`
abbrev root : Text
root = b'/' ∷ b'a' ∷ []

-- `/a/b`
abbrev inside : Text
inside = b'/' ∷ b'a' ∷ b'/' ∷ b'b' ∷ []

-- `/ab`, which only looks as if it were below.
abbrev beside : Text
beside = b'/' ∷ b'a' ∷ b'b' ∷ []

-- `/a/../b`
abbrev escaping : Text
escaping = b'/' ∷ b'a' ∷ b'/' ∷ b'.' ∷ b'.' ∷ b'/' ∷ b'b' ∷ []

abbrev origin : Text
origin = b'x' ∷ []

abbrev policy : CapabilityPolicy
policy = record {
  approved =
      clipboard_read
      ∷ filesystem (record { path = root; write = false })
      ∷ network (record { origins = origin ∷ [] })
      ∷ [];
}

reads_inside : require_filesystem policy inside false ≡ ok tt
unfolding require_filesystem is_absolute superspace.Protocol.Paths.components
reads_inside = refl

others_denied :
    (require_filesystem policy inside true ≡ err denied)
    × (require_filesystem policy beside false ≡ err denied)
    × (require_filesystem policy escaping false ≡ err denied)
unfolding require_filesystem is_absolute superspace.Protocol.Paths.components
others_denied = (refl, refl, refl)

require_iff_example :
    (require policy clipboard_read ≡ ok tt) ↔ Some (λ a. a ≡ clipboard_read) policy.approved
require_iff_example = require_iff policy clipboard_read

require_filesystem-Confines_example :
    (is_absolute inside ≡ true) × Some (Confines inside false) policy.approved
require_filesystem-Confines_example = require_filesystem-Confines policy inside false reads_inside

require_network-process_iff_example :
    ((require_network policy origin ≡ ok tt) ↔ Some (ListsOrigin origin) policy.approved)
    × ((require_process policy origin ≡ ok tt) ↔ Some (ListsExecutable origin) policy.approved)
require_network-process_iff_example = require_network-process_iff policy origin
