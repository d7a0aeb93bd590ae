-- ===== src/Platform/Clipboard.antt =====
-- crates/platform/src/clipboard.rs: clipboard values and their digests, the capture policy and the
-- monitor. A usize has 64 bits, and a path is UTF-8 text. BLAKE3 (`hash`), the operating system's
-- clipboard (a `Backend`) and the Unicode tables of `str::to_lowercase` are parameters.
pub mod Digest
pub mod Monitoring
mod Examples
use superspace.Base.{
  ℕ, ◌+◌, ◌*◌, ◌^◌, ◌≡◌, Bool, true, false, not, ◌&&◌, ◌||◌, Option, none, some, List, [], ◌∷◌,
  ◌++◌, map, ltb, ◌==◌, if◌then◌else◌, length,
}
use superspace.Base.Bytes.{Bytes, to_le_bytes}
use superspace.Base.Result.{Result, ok, err, ◌>>=◌, ok_or}
use superspace.Base.Text.{Text, as_bytes, text_eq, is_empty}
use superspace.Protocol.Paths.{is_absolute}

pub data ClipboardValue : Type 0 where
  text : Text → ClipboardValue
  html : Text → Text → ClipboardValue
  rtf : Text → Text → ClipboardValue
  image : ℕ → ℕ → Bytes → ClipboardValue
  files : List Text → ClipboardValue

pub data ClipboardError : Type 0 where
  empty unavailable unsupported invalid_content : ClipboardError

abbrev pub checked_mul : ℕ → ℕ → Option ℕ
checked_mul a b = if ltb (a * b) (2 ^ 64) then some (a * b) else none

abbrev pub usize_le_bytes : ℕ → Bytes
usize_le_bytes n = to_le_bytes 8 n

-- `width.checked_mul(height).and_then(|pixels| pixels.checked_mul(4)) == Some(rgba.len())`
abbrev pub has_pixels : ℕ → ℕ → Bytes → Bool
has_pixels width height rgba = elim (checked_mul width height) [
  | none ↦ false
  | some pixels ↦ elim (checked_mul pixels 4) [ none ↦ false | some size ↦ size == length rgba ]
]

abbrev pub all_absolute : List Text → Bool
all_absolute [] = true
all_absolute (p ∷ ps) = is_absolute p && all_absolute ps

-- The tags of the digest's domains, with their closing zero byte.
abbrev pub text_tag : Bytes
text_tag = b't' ∷ b'e' ∷ b'x' ∷ b't' ∷ 0 ∷ []

abbrev pub html_tag : Bytes
html_tag = b'h' ∷ b't' ∷ b'm' ∷ b'l' ∷ 0 ∷ []

abbrev pub rtf_tag : Bytes
rtf_tag = b'r' ∷ b't' ∷ b'f' ∷ 0 ∷ []

abbrev pub rgba_tag : Bytes
rgba_tag = b'r' ∷ b'g' ∷ b'b' ∷ b'a' ∷ 0 ∷ []

abbrev pub files_tag : Bytes
files_tag = b'f' ∷ b'i' ∷ b'l' ∷ b'e' ∷ b's' ∷ 0 ∷ []

-- `hash_field`: a length and the bytes.
pub hash_field : Bytes → Bytes
hash_field bytes = usize_le_bytes (length bytes) ++ bytes

hash_paths : List Text → Bytes
unfolding hash_field
hash_paths [] = []
hash_paths (p ∷ ps) = hash_field (as_bytes p) ++ hash_paths ps

-- The bytes that `ClipboardValue::digest` feeds to the hasher; `none` for invalid content.
unfoldable pub digest_input : ClipboardValue → Option Bytes
unfolding hash_field hash_paths
digest_input (text t) = if not (is_empty t) then some (text_tag ++ as_bytes t) else none
digest_input (html plain rich) =
    if not (is_empty plain) && not (is_empty rich)
    then some (html_tag ++ (hash_field (as_bytes plain) ++ hash_field (as_bytes rich)))
    else none
digest_input (rtf plain rich) =
    if not (is_empty plain) && not (is_empty rich)
    then some (rtf_tag ++ (hash_field (as_bytes plain) ++ hash_field (as_bytes rich)))
    else none
digest_input (image width height rgba) =
    if ltb 0 width && ltb 0 height && has_pixels width height rgba
    then some (rgba_tag ++ (usize_le_bytes width ++ (usize_le_bytes height ++ rgba)))
    else none
digest_input (files paths) =
    if not (is_empty paths) && all_absolute paths
    then some (files_tag ++ hash_paths paths)
    else none

pub record ClipboardContext : Type 0 where
  pub application_id : Option Text
  pub sensitive : Bool

pub data CaptureDisposition : Type 0 where
  exclude normal sensitive : CaptureDisposition

pub record ClipboardCapturePolicy : Type 0 where
  pub excluded_applications : List Text

contains_text : Text → List Text → Bool
contains_text t [] = false
contains_text t (u ∷ us) = text_eq t u || contains_text t us

module _ (to_lowercase : Text → Text) where
  -- `ClipboardCapturePolicy::new`
  pub new_policy : List Text → ClipboardCapturePolicy
  new_policy excluded_applications = record {
    excluded_applications = map to_lowercase excluded_applications;
  }

  is_excluded : ClipboardCapturePolicy → Option Text → Bool
  unfolding contains_text
  is_excluded self none = false
  is_excluded self (some application) =
      contains_text (to_lowercase application) self.excluded_applications

  unfoldable pub assess : ClipboardCapturePolicy → ClipboardContext → CaptureDisposition
  unfolding is_excluded
  assess self context =
      if is_excluded self context.application_id
      then exclude
      else if context.sensitive
      then sensitive
      else normal

-- The trait `ClipboardBackend`, on the state `B` of the desktop's clipboard.
pub record Backend (B : Type 0) : Type 0 where
  pub read : B → B × Result ClipboardError ClipboardValue
  pub write : ClipboardValue → B → B × Result ClipboardError (Unit {0})

pub record ClipboardMonitor (B : Type 0) : Type 0 where
  pub backend : B
  pub last_digest : Option Bytes

pub record ClipboardObservation : Type 0 where
  pub value : ClipboardValue
  pub digest : Bytes

module _ (hash : Bytes → Bytes) where
  -- `ClipboardValue::digest`
  pub digest : ClipboardValue → Result ClipboardError Bytes
  digest value = ok_or (digest_input value) invalid_content >>= λ input. ok (hash input)

  -- `self.last_digest == Some(digest)`
  is_last : Option Bytes → Bytes → Bool
  is_last none d = false
  is_last (some last) d = text_eq last d

  module _ {B : Type 0} (os : Backend B) where
    pub new_monitor : B → ClipboardMonitor B
    new_monitor backend = record { backend = backend; last_digest = none }

    -- The part of `poll` behind the read.
    observe :
        ClipboardMonitor B
        → ClipboardValue
        → ClipboardMonitor B × Result ClipboardError (Option ClipboardObservation)
    unfolding digest is_last
    observe self value = elim (digest value) [
      | err error ↦ (self, err error)
      | ok d ↦ if is_last self.last_digest d then (self, ok none) else (
        record self { last_digest = some d },
        ok (some (record { value = value; digest = d })),
      )
    ]

    unfoldable pub poll :
        ClipboardMonitor B
        → ClipboardMonitor B × Result ClipboardError (Option ClipboardObservation)
    unfolding observe
    poll self =
        let (backend, result) = os.read self.backend in
        let self' = record self { backend = backend } in
        elim result [
          | ok value ↦ observe self' value
          | err empty ↦ (self', ok none)
          | err error ↦ (self', err error)
        ]

    unfoldable pub apply_remote :
        ClipboardMonitor B → ClipboardValue → ClipboardMonitor B × Result ClipboardError (Unit {0})
    unfolding digest
    apply_remote self value = elim (digest value) [
      | err error ↦ (self, err error)
      | ok d ↦
          let (backend, result) = os.write value self.backend in
          elim result [
            | err error ↦ (record self { backend = backend }, err error)
            | ok _ ↦ (record { backend = backend; last_digest = some d }, ok tt)
          ]
    ]
