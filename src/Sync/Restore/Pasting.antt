-- ===== src/Sync/Restore/Pasting.antt =====
-- `restore_history_value` against `persist` of crates/sync/src/lib.rs, by the blob store of
-- crates/storage/src/blob.rs.
use superspace.Base.{◌≡◌, ◌≢◌, refl, sym, ap, ◌∙◌, subst, Bool, Option, none, some, arith}
use superspace.Base.Bytes.{Bytes}
use superspace.Base.Result.{Result, ok, err}
use superspace.Base.Text.{Text}
use superspace.Protocol.Message.{ClipboardEvent, ClipboardFormat, DeviceId}
use superspace.Platform.Clipboard.{ClipboardValue, digest_input}
use superspace.Platform.Clipboard.Digest.{IsTyped}
use superspace.Storage.Entry.{ClipboardKind}
use superspace.Storage.Blob.{BlobHash, BlobStore, Io, parse, put}
use superspace.Storage.Blob.Addressing.{IsAddressed, parse-IsPlain, read-put}
use superspace.Sync.Calls.{Stored, ◌>>=◌, pure, or_fail}
use superspace.Sync.Codec.{blob, Png, EncodedValue, encode_value, decode_value}
use superspace.Sync.Codec.Values.{PngReads, FitsDecoder, decode_value-encode_value}
use superspace.Sync.Parts.{ClipboardSync, Services, put_blob, stored, entry_of}
use superspace.Sync.Restore.{
  restore_bytes, restore_blob, restore_kind, restore_text, restore_history_value,
}

-- The format in which `encode_value` writes a value.
abbrev pub format_of : ClipboardValue → ClipboardFormat
format_of (ClipboardValue.text t) = ClipboardFormat.text
format_of (ClipboardValue.html p r) = ClipboardFormat.html
format_of (ClipboardValue.rtf p r) = ClipboardFormat.rtf
format_of (ClipboardValue.image w i r) = ClipboardFormat.png
format_of (ClipboardValue.files ps) = ClipboardFormat.files

encode_value_format :
    (png : Png) (v : ClipboardValue) (e : EncodedValue)
    → encode_value png v ≡ ok e
    → e.format ≡ format_of v
unfolding encode_value
encode_value_format png (ClipboardValue.text t) e h = ground (arith, h)
encode_value_format png (ClipboardValue.html p r) e h = ground (arith, h)
encode_value_format png (ClipboardValue.rtf p r) e h = ground (arith, h)
encode_value_format png (ClipboardValue.image w i r) e h = ground (arith, h)
encode_value_format png (ClipboardValue.files ps) e h = cc

-- `Result::ok`
abbrev pub ok_of : {E A : Type 0} → Result E A → Option A
ok_of (ok a) = some a
ok_of (err e) = none

-- The coordinator's blob store is the one of crates/storage/src/blob.rs.
abbrev pub PutsBlobs :
    {B H : Type 0} → (Bytes → BlobHash) → Io → Text → Services B H BlobStore → Type 0
PutsBlobs digest env pid services =
    (bytes : Bytes) (blobs : BlobStore)
    → services.put bytes blobs
      ≡ ((put digest env pid bytes blobs).0, ok_of (put digest env pid bytes blobs).1)

-- What the digest of some bytes has to be: 64 hexadecimal digits in lower case, and of these bytes
-- only.
pub record IsDigest (digest : Bytes → BlobHash) (bytes : Bytes) : Type 0 where
  pub parsed : parse (digest bytes) ≡ some (digest bytes)
  pub free : (b : Bytes) → digest b ≡ digest bytes → b ≡ bytes

module _ (digest : Bytes → BlobHash) (png : Png) where
  restore_kind_blob :
      (kind : ClipboardKind) (text blob_hash : Option Text) (blobs : BlobStore)
      → kind ≢ ClipboardKind.text
      → restore_kind digest png kind text blob_hash blobs
        ≡ restore_blob digest png kind blob_hash blobs
  unfolding restore_kind
  restore_kind_blob ClipboardKind.text text blob_hash blobs n = absurd (n refl)
  restore_kind_blob ClipboardKind.html text blob_hash blobs n = refl
  restore_kind_blob ClipboardKind.rtf text blob_hash blobs n = refl
  restore_kind_blob ClipboardKind.image text blob_hash blobs n = refl
  restore_kind_blob ClipboardKind.files text blob_hash blobs n = refl

  restore_blob-put :
      (env : Io) (pid : Text) (kind : ClipboardKind) (bytes : Bytes) (blobs blobs' : BlobStore)
      (hash : BlobHash)
      → IsDigest digest bytes
      → IsAddressed digest blobs
      → put digest env pid bytes blobs ≡ (blobs', ok hash)
      → restore_blob digest png kind (some hash) blobs' ≡ restore_bytes digest png kind bytes
  unfolding restore_blob
  restore_blob-put env pid kind bytes blobs blobs' hash d a h =
      let (named, found, _) =
        read-put digest env pid bytes blobs blobs' hash a
          (parse-IsPlain (digest bytes) (digest bytes) d.parsed) d.free h in
      let known : parse hash ≡ some hash = rw named d.parsed in rw (known, found) refl

ok_of-some : {E A : Type 0} (r : Result E A) (a : A) → ok_of r ≡ some a → r ≡ ok a
ok_of-some (ok b) a h = cc
ok_of-some (err e) a h = cc

pair-eq : {A B : Type 0} (p : A × B) (a : A) (b : B) → p.0 ≡ a → p.1 ≡ b → p ≡ (a, b)
pair-eq p a b h k = ground (arith, h, k)

module _ {B H : Type 0} where
  -- What `put_blob` and the record of the stored content make of an answer of the blob store.
  answered :
      (kind : ClipboardKind) (text : Option Text) (s s' : ClipboardSync B H BlobStore) (st : Stored)
      (answer : BlobStore × Option Text)
      → ((λ self. (record self { blobs = answer.0 }, or_fail answer.1 blob)) >>= λ hash.
            pure (record { kind = kind; text = text; blob_hash = some hash }))
          s
        ≡ (s', ok st)
      → (hash : BlobHash) × (st ≡ record { kind = kind; text = text; blob_hash = some hash })
        × (answer ≡ (s'.blobs, some hash))
  answered kind text s s' st (blobs, some hash) h = (hash, ground (arith, h), ground (arith, h))
  answered kind text s s' st (blobs, none) h = absurd (ground (arith, h))

module _ {B H : Type 0} (services : Services B H BlobStore) (digest : Bytes → BlobHash) (env : Io)
    (pid : Text) where
  put_blob_lem :
      (kind : ClipboardKind) (text : Option Text) (bytes : Bytes)
      (s s' : ClipboardSync B H BlobStore) (st : Stored)
      → PutsBlobs digest env pid services
      → (put_blob services bytes >>= λ hash.
            pure (record { kind = kind; text = text; blob_hash = some hash }))
          s
        ≡ (s', ok st)
      → (hash : BlobHash) × (st ≡ record { kind = kind; text = text; blob_hash = some hash })
        × (put digest env pid bytes s.blobs ≡ (s'.blobs, ok hash))
  unfolding put_blob
  put_blob_lem kind text bytes s s' st store h =
      let (hash, is, called) = answered kind text s s' st (services.put bytes s.blobs) h in
      let both = sym (store bytes s.blobs) ∙ called in
      let done = put digest env pid bytes s.blobs in
      (
        hash,
        is,
        pair-eq done s'.blobs (ok hash) (ap (λ p. p.0) both)
            (ok_of-some done.1 hash (ap (λ p. p.1) both)),
      )

  restore_kind-put :
      (kind : ClipboardKind) (text : Option Text) (v : ClipboardValue) (bytes : Bytes)
      (s s' : ClipboardSync B H BlobStore) (st : Stored)
      → PutsBlobs digest env pid services
      → IsDigest digest bytes
      → IsAddressed digest s.blobs
      → kind ≢ ClipboardKind.text
      → restore_bytes digest services.png kind bytes ≡ ok v
      → (put_blob services bytes >>= λ hash.
            pure (record { kind = kind; text = text; blob_hash = some hash }))
          s
        ≡ (s', ok st)
      → restore_kind digest services.png st.kind st.text st.blob_hash s'.blobs ≡ ok v
  unfolding restore_kind
  restore_kind-put kind text v bytes s s' st store d a blobbed restored h =
      let (hash, is, done) = put_blob_lem kind text bytes s s' st store h in
      let back =
        restore_blob-put digest services.png env pid kind bytes s.blobs s'.blobs hash d a done in
      ap (λ x. restore_kind digest services.png x.kind x.text x.blob_hash s'.blobs) is
      ∙ restore_kind_blob digest services.png kind text (some hash) s'.blobs blobbed
      ∙ back
      ∙ restored

  restore_kind-stored :
      (v : ClipboardValue) (bytes : Bytes) (s s' : ClipboardSync B H BlobStore) (st : Stored)
      → PutsBlobs digest env pid services
      → IsDigest digest bytes
      → IsAddressed digest s.blobs
      → digest_input v ≢ none
      → decode_value services.png (format_of v) bytes ≡ ok v
      → stored services (format_of v) bytes (some v) s ≡ (s', ok st)
      → restore_kind digest services.png st.kind st.text st.blob_hash s'.blobs ≡ ok v
  unfolding restore_kind restore_text stored decode_value digest_input restore_bytes
  restore_kind-stored (ClipboardValue.text t) bytes s s' st store d a valid decoded h =
      ground (arith, h, valid)
  restore_kind-stored (ClipboardValue.html p r) bytes s s' st store d a valid decoded h =
      restore_kind-put ClipboardKind.html (some p) (ClipboardValue.html p r) bytes s s' st store d a
        (λ e. cc) decoded h
  restore_kind-stored (ClipboardValue.rtf p r) bytes s s' st store d a valid decoded h =
      restore_kind-put ClipboardKind.rtf (some p) (ClipboardValue.rtf p r) bytes s s' st store d a
        (λ e. cc) decoded h
  restore_kind-stored (ClipboardValue.image w i r) bytes s s' st store d a valid decoded h =
      restore_kind-put ClipboardKind.image none (ClipboardValue.image w i r) bytes s s' st store d a
        (λ e. cc) decoded h
  restore_kind-stored (ClipboardValue.files ps) bytes s s' st store d a valid decoded h = cc

  -- A valid text, rich text or image that was encoded and stored without an error is restored from
  -- its history entry as the same value; an image has to fit the decoder's limit, PNG reads back what it
  -- wrote, the digest of these bytes is 64 lower case hexadecimal digits and that of no other bytes, and
  -- the store held under each digest the content with it.
  pub restore_history_value-stored :
      (v : ClipboardValue) (e : EncodedValue) (s s' : ClipboardSync B H BlobStore) (st : Stored)
      (device : DeviceId) (event : ClipboardEvent) (application : Option Text) (sensitive : Bool)
      → PutsBlobs digest env pid services
      → IsDigest digest e.bytes
      → IsAddressed digest s.blobs
      → PngReads services.png
      → IsTyped v
      → FitsDecoder v
      → digest_input v ≢ none
      → encode_value services.png v ≡ ok e
      → stored services e.format e.bytes (some v) s ≡ (s', ok st)
      → restore_history_value digest services.png
          (entry_of services device event st application sensitive)
          s'.blobs
        ≡ ok v
  unfolding restore_history_value entry_of
  restore_history_value-stored v e s s' st device event application sensitive store d a reads u fits
        valid enc h =
      let same = encode_value_format services.png v e enc in
      let decoded = decode_value-encode_value services.png v e reads u fits valid enc in
      restore_kind-stored v e.bytes s s' st store d a valid
        (subst (λ f. decode_value services.png f e.bytes ≡ ok v) same decoded)
        (subst (λ f. stored services f e.bytes (some v) s ≡ (s', ok st)) same h)
