-- ===== src/Platform/Clipboard/Examples.antt =====
-- Values, policy and monitor of crates/platform/src/clipboard.rs on examples. The digest is the
-- input itself, and the desktop clipboard is the value that it holds.
use superspace.Base.{◌≡◌, refl, ◌⊎◌, true, none, some, [], ◌∷◌, if◌then◌else◌, leb, map, ◌&&◌, ◌+◌}
use superspace.Base.Bytes.{Bytes}
use superspace.Base.Result.{ok}
use superspace.Base.Text.{Text, as_bytes}
use superspace.Platform.Clipboard.{
  ClipboardValue, text, html, Backend, ClipboardMonitor, ClipboardContext, exclude, normal,
  sensitive, new_policy, assess, digest_input, poll, new_monitor,
}
use superspace.Platform.Clipboard.Monitoring.{ComesFrom, assess_cases, poll-poll}

abbrev to_lower : Text → Text
to_lower = map (λ c. if leb b'A' c && leb c b'Z' then c + 32 else c)

abbrev app : Text
app = b'K' ∷ b'e' ∷ b'y' ∷ []

abbrev listed_app : Text
listed_app = b'k' ∷ b'E' ∷ b'y' ∷ []

abbrev from_app : ClipboardContext
from_app = record { application_id = some app; sensitive = true }

assess_listed : assess to_lower (new_policy to_lower (listed_app ∷ [])) from_app ≡ exclude
unfolding assess new_policy
assess_listed = refl

assess_cases_example :
    (ComesFrom to_lower (some app) (listed_app ∷ [])
      × (assess to_lower (new_policy to_lower (listed_app ∷ [])) from_app ≡ exclude))
    ⊎ ((¬ ComesFrom to_lower (some app) (listed_app ∷ []))
        × (assess to_lower (new_policy to_lower (listed_app ∷ [])) from_app
            ≡ (if true then sensitive else normal)))
assess_cases_example = assess_cases to_lower (listed_app ∷ []) from_app

abbrev hi : Text
hi = b'h' ∷ b'i' ∷ []

abbrev hi_input : Bytes
hi_input = b't' ∷ b'e' ∷ b'x' ∷ b't' ∷ 0 ∷ b'h' ∷ b'i' ∷ []

abbrev Desktop : Type 0
Desktop = ClipboardValue

abbrev desktop : Backend Desktop
desktop = record { read = λ b. (b, ok b); write = λ v b. (v, ok tt) }

abbrev unchanged : Bytes → Bytes
unchanged b = b

abbrev start : ClipboardMonitor Desktop
start = new_monitor unchanged desktop (html hi hi)

abbrev holding : ClipboardMonitor Desktop
holding = record { backend = text hi; last_digest = some hi_input }

abbrev idle_monitor : ClipboardMonitor Desktop
idle_monitor = record { backend = text hi; last_digest = none }

hi_reported :
    (poll unchanged desktop idle_monitor).1
    ≡ ok (some (record { value = text hi; digest = hi_input }))
unfolding poll as_bytes digest_input
hi_reported = refl

poll-poll_example : (poll unchanged desktop (poll unchanged desktop idle_monitor).0).1 ≡ ok none
unfolding poll digest_input
poll-poll_example =
    poll-poll unchanged desktop idle_monitor (record { value = text hi; digest = hi_input })
      (text hi) hi_reported refl
