-- ===== src/Platform/Clipboard/Digest.antt =====
-- What the bytes behind a digest of crates/platform/src/clipboard.rs say about the value.
use mathlib.Core.List.{append-nil, append_assoc}
use superspace.Base.{
  ◌^◌, ◌<◌, ◌≡◌, refl, sym, ap, ap₂, ◌∙◌, some, List, [], ◌∷◌, ◌++◌, arith, length, All,
  append_split,
}
use superspace.Base.Bytes.{Bytes, to_le_bytes_injective}
use superspace.Base.Text.{Text, IsString, as_bytes, as_bytes_injective}
use superspace.Platform.Clipboard.{
  ClipboardValue, text, html, rtf, image, files, text_tag, html_tag, rtf_tag, rgba_tag, files_tag,
  usize_le_bytes, hash_field, hash_paths, digest_input,
}

-- The value's parts fit their types: texts are strings, sizes are usize.
abbrev pub IsTyped : ClipboardValue → Type 0
IsTyped (text t) = IsString t
IsTyped (html plain rich) = IsString plain × IsString rich
IsTyped (rtf plain rich) = IsString plain × IsString rich
IsTyped (image width height rgba) = (width < 2 ^ 64) × (height < 2 ^ 64)
IsTyped (files paths) = All IsString paths

shape : ClipboardValue → Bytes
shape (text t) = text_tag ++ as_bytes t
shape (html plain rich) = html_tag ++ (hash_field (as_bytes plain) ++ hash_field (as_bytes rich))
shape (rtf plain rich) = rtf_tag ++ (hash_field (as_bytes plain) ++ hash_field (as_bytes rich))
shape (image width height rgba) =
    rgba_tag ++ (usize_le_bytes width ++ (usize_le_bytes height ++ rgba))
shape (files paths) = files_tag ++ hash_paths paths

digest_input-shape : (v : ClipboardValue) (i : Bytes) → digest_input v ≡ some i → i ≡ shape v
unfolding digest_input shape
digest_input-shape (text t) i h = ground arith
digest_input-shape (html plain rich) i h = ground arith
digest_input-shape (rtf plain rich) i h = ground arith
digest_input-shape (image width height rgba) i h = ground arith
digest_input-shape (files paths) i h = ground arith

-- A length-prefixed field is read back from the front, whatever follows.
hash_field_split :
    (a b us vs : Bytes)
    → length a < 2 ^ 64
    → length b < 2 ^ 64
    → hash_field a ++ us ≡ hash_field b ++ vs
    → (a ≡ b) × (us ≡ vs)
unfolding hash_field
hash_field_split a b us vs h k e =
    let e' : usize_le_bytes (length a) ++ (a ++ us) ≡ usize_le_bytes (length b) ++ (b ++ vs) =
      sym (append_assoc (usize_le_bytes (length a)) a us)
      ∙ e
      ∙ append_assoc (usize_le_bytes (length b)) b vs in
    let (p, q) = append_split (usize_le_bytes (length a)) (usize_le_bytes (length b)) refl e' in
    append_split a b (to_le_bytes_injective 8 (length a) (length b) h k p) q

field_split :
    (s t : Text) (us vs : Bytes)
    → IsString s
    → IsString t
    → hash_field (as_bytes s) ++ us ≡ hash_field (as_bytes t) ++ vs
    → (s ≡ t) × (us ≡ vs)
field_split s t us vs h k e =
    let (p, q) = hash_field_split (as_bytes s) (as_bytes t) us vs h.sized k.sized e in
    (as_bytes_injective s t h.scalars k.scalars p, q)

field_injective :
    (s t : Text)
    → IsString s
    → IsString t
    → hash_field (as_bytes s) ≡ hash_field (as_bytes t)
    → s ≡ t
field_injective s t h k e = (field_split s t [] [] h k (append-nil _ ∙ e ∙ sym (append-nil _))).0

hash_paths_injective :
    (ps qs : List Text)
    → All IsString ps
    → All IsString qs
    → hash_paths ps ≡ hash_paths qs
    → ps ≡ qs
unfolding hash_paths
hash_paths_injective [] [] h k e = refl
hash_paths_injective [] (q ∷ qs) h k e = absurd (unfold hash_field in cc)
hash_paths_injective (p ∷ ps) [] h k e = absurd (unfold hash_field in cc)
hash_paths_injective (p ∷ ps) (q ∷ qs) h k e =
    let (x, y) = field_split p q (hash_paths ps) (hash_paths qs) h.0 k.0 e in
    ap₂ ◌∷◌ x (hash_paths_injective ps qs h.1 k.1 y)

shape_injective : (v w : ClipboardValue) → IsTyped v → IsTyped w → shape v ≡ shape w → v ≡ w
unfolding shape
shape_injective (text s) (text t) h k e =
    ap text (as_bytes_injective s t h.scalars k.scalars (append_split text_tag text_tag refl e).1)
shape_injective (text s) _ h k e = ground arith
shape_injective (html a b) (html c d) h k e =
    let (x, y) = field_split a c _ _ h.0 k.0 (append_split html_tag html_tag refl e).1 in
    ap₂ html x (field_injective b d h.1 k.1 y)
shape_injective (html a b) _ h k e = ground arith
shape_injective (rtf a b) (rtf c d) h k e =
    let (x, y) = field_split a c _ _ h.0 k.0 (append_split rtf_tag rtf_tag refl e).1 in
    ap₂ rtf x (field_injective b d h.1 k.1 y)
shape_injective (rtf a b) _ h k e = ground arith
shape_injective (image w h r) (image x y s) p q e =
    let (a, f) =
      append_split (usize_le_bytes w) (usize_le_bytes x) refl
        (append_split rgba_tag rgba_tag refl e).1 in
    let (b, g) = append_split (usize_le_bytes h) (usize_le_bytes y) refl f in
    let same_width = to_le_bytes_injective 8 w x p.0 q.0 a in
    let same_height = to_le_bytes_injective 8 h y p.1 q.1 b in cc
shape_injective (image w h r) _ p q e = ground arith
shape_injective (files ps) (files qs) h k e =
    ap files (hash_paths_injective ps qs h k (append_split files_tag files_tag refl e).1)
shape_injective (files ps) _ h k e = ground arith

-- Valid values that feed the same bytes to the hasher are equal, across formats too: the tags and
-- the length prefixes leave no ambiguity.
pub digest_input_injective :
    (v w : ClipboardValue) (i : Bytes)
    → IsTyped v
    → IsTyped w
    → digest_input v ≡ some i
    → digest_input w ≡ some i
    → v ≡ w
digest_input_injective v w i h k e f =
    shape_injective v w h k (sym (digest_input-shape v i e) ∙ digest_input-shape w i f)
