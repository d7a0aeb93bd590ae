-- ===== src/Storage/Blob/Addressing.antt =====
-- The blob store of crates/storage/src/blob.rs holds under each digest the content with that digest.
use superspace.Base.{
  ◌≡◌, ◌≢◌, refl, sym, ap, subst, ◌∙◌, ◌⊎◌, inl, inr, true, false, not, ◌&&◌, ◌||◌, Option, none,
  some, [], ◌∷◌, arith, Bool-cases, Option-cases, take,
}
use superspace.Base.Bytes.{Bytes}
use superspace.Base.Result.{ok}
use superspace.Base.Text.{Text, as_bytes, text_eq, text_eq→≡, text_eq_refl}
use superspace.Storage.Blob.{
  BlobHash, parse, all_hexdigits, BlobStore, with_file, Io, temporary, is_file, give_up, move, fill,
  create, put, read, read_content,
}

-- A name that no temporary file has: those begin with a dot.
abbrev pub IsPlain : Text → Type 0
IsPlain [] = Unit
IsPlain (c ∷ s) = c ≢ b'.'

all_hexdigits_dotted : (s : Text) → all_hexdigits (as_bytes (b'.' ∷ s)) ≡ false
unfolding as_bytes
all_hexdigits_dotted s = refl

-- A parsed digest has hexadecimal digits, and no dot.
pub parse-IsPlain : (value : Text) (hash : BlobHash) → parse value ≡ some hash → IsPlain value
unfolding parse
parse-IsPlain [] hash h = tt
parse-IsPlain (c ∷ s) hash h = λ dot. absurd (ground (arith, rw dot at h, all_hexdigits_dotted s))

temporary_other : (pid hash name : Text) → IsPlain name → text_eq name (temporary pid hash) ≡ false
unfolding temporary
temporary_other pid hash [] h = refl
temporary_other pid hash (c ∷ s) h = ground (arith, h)

module _ (digest : Bytes → BlobHash) where
  -- What is there under a digest has that digest.
  abbrev Holds : BlobHash → Option Bytes → Type 0
  Holds hash none = Unit
  Holds hash (some bytes) = digest bytes ≡ hash

  abbrev pub IsAddressed : BlobStore → Type 0
  IsAddressed store = (name : Text) → IsPlain name → Holds name (store name)

  -- A call leaves a plain name alone, or puts the bytes under their digest.
  abbrev Puts : BlobStore → BlobStore → Bytes → Type 0
  Puts store store' bytes =
      (name : Text)
      → IsPlain name
      → (store' name ≡ store name) ⊎ ((name ≡ digest bytes) × (store' name ≡ some bytes))

  give_up-Puts :
      (env : Io) (pid : Text) (bytes written : Bytes) (store : BlobStore)
      → Puts store
          (give_up env
            (temporary pid (digest bytes))
            (with_file (temporary pid (digest bytes)) (some written) store)).0
          bytes
  unfolding give_up
  give_up-Puts env pid bytes written store name p =
      let other = temporary_other pid (digest bytes) name p in
      elim (Bool-cases env.remove_file) [
        | inl removed ↦ inl (rw (removed, other) refl)
        | inr kept ↦ inl (rw (kept, other) refl)
      ]

  move-Puts :
      (env : Io) (pid : Text) (bytes : Bytes) (store : BlobStore)
      → Puts store
          (move env
            (temporary pid (digest bytes))
            (digest bytes)
            bytes
            (with_file (temporary pid (digest bytes)) (some bytes) store)).0
          bytes
  unfolding move
  move-Puts env pid bytes store name p =
      let temp = temporary pid (digest bytes) in
      let other = temporary_other pid (digest bytes) name p in
      let opened = with_file temp (some bytes) store in
      elim (Bool-cases env.rename) [
        | inl renamed ↦ elim (Bool-cases (text_eq name (digest bytes))) [
          | inl here ↦ inr (text_eq→≡ name (digest bytes) here, rw (renamed, here) refl)
          | inr there ↦ inl (rw (renamed, there, other) refl)
        ]
        | inr refused ↦ elim (Bool-cases (is_file (opened (digest bytes)) && env.remove_file)) [
          | inl present ↦ inl (rw (refused, present, other) refl)
          | inr absent ↦ elim (give_up-Puts env pid bytes bytes store name p) [
            | inl same ↦ inl (rw (refused, absent) same)
            | inr new ↦ inr (new.0, rw (refused, absent) new.1)
          ]
        ]
      ]

  put-Puts :
      (env : Io) (pid : Text) (bytes : Bytes) (store : BlobStore)
      → Puts store (put digest env pid bytes store).0 bytes
  unfolding put create fill
  put-Puts env pid bytes store name p =
      let temp = temporary pid (digest bytes) in
      let other = temporary_other pid (digest bytes) name p in
      elim (Bool-cases (is_file (store (digest bytes)))) [
        | inl there ↦ inl (rw there refl)
        | inr absent ↦ elim (Bool-cases (is_file (store temp) || not env.create_new)) [
          | inl bad ↦ inl (rw (absent, bad) refl)
          | inr good ↦ elim (Option-cases env.write_all) [
            | inr (n, cut) ↦
                rw (absent, good, cut) (give_up-Puts env pid bytes (take n bytes) store name p)
            | inl whole ↦ elim (Bool-cases env.sync_all) [
              | inl synced ↦ rw (absent, good, whole, synced) (move-Puts env pid bytes store name p)
              | inr lost ↦
                  rw (absent, good, whole, lost) (give_up-Puts env pid bytes bytes store name p)
            ]
          ]
        ]
      ]

  put-IsAddressed :
      (env : Io) (pid : Text) (bytes : Bytes) (store : BlobStore)
      → IsAddressed store
      → IsAddressed (put digest env pid bytes store).0
  put-IsAddressed env pid bytes store a name p = elim (put-Puts env pid bytes store name p) [
    | inl same ↦ rw same (a name p)
    | inr new ↦ rw (new.1) (sym new.0)
  ]

  -- A call that returned a hash has the content in place.
  put_done :
      (env : Io) (pid : Text) (bytes : Bytes) (store : BlobStore) (hash : BlobHash)
      → IsPlain (digest bytes)
      → (put digest env pid bytes store).1 ≡ ok hash
      → (hash ≡ digest bytes)
        × ((is_file (store (digest bytes)) ≡ true)
            ⊎ ((put digest env pid bytes store).0 (digest bytes) ≡ some bytes))
  unfolding put create fill move give_up
  put_done env pid bytes store hash p h =
      let d = digest bytes in
      let temp = temporary pid d in
      let other = temporary_other pid d d p in
      elim (Bool-cases (is_file (store d))) [
        | inl there ↦ (ground (arith, there, h), inl there)
        | inr absent ↦ elim (Bool-cases (is_file (store temp) || not env.create_new)) [
          | inl bad ↦ absurd (ground (arith, rw (absent, bad) at h))
          | inr good ↦ elim (Option-cases env.write_all) [
            | inr (n, cut) ↦ absurd (ground (arith, rw (absent, good, cut) at h))
            | inl whole ↦ elim (Bool-cases env.sync_all) [
              | inr lost ↦ absurd (ground (arith, rw (absent, good, whole, lost) at h))
              | inl synced ↦ elim (Bool-cases env.rename) [
                | inl renamed ↦ (
                  ground (arith, rw (absent, good, whole, synced, renamed) at h),
                  inr (rw (absent, good, whole, synced, renamed, text_eq_refl d) refl),
                )
                | inr refused ↦
                    absurd (
                      ground (arith, rw (absent, good, whole, synced, refused, other, absent) at h))
              ]
            ]
          ]
        ]
      ]

  present-Holds :
      (bytes : Bytes) (o : Option Bytes)
      → is_file o ≡ true
      → Holds (digest bytes) o
      → ((b : Bytes) → digest b ≡ digest bytes → b ≡ bytes)
      → o ≡ some bytes
  unfolding is_file
  present-Holds bytes none f h free = cc
  present-Holds bytes (some b) f h free = ap some (free b h)

  -- Content that `put` accepted is read back under the hash that it gave, also where it was there
  -- before, and the store still holds under each name the content with that digest; the digest of this
  -- content begins with no dot and is that of no other content, and the store held such content before.
  pub read-put :
      (env : Io) (pid : Text) (bytes : Bytes) (store store' : BlobStore) (hash : BlobHash)
      → IsAddressed store
      → IsPlain (digest bytes)
      → ((b : Bytes) → digest b ≡ digest bytes → b ≡ bytes)
      → put digest env pid bytes store ≡ (store', ok hash)
      → (hash ≡ digest bytes) × (read digest store' hash ≡ ok bytes) × IsAddressed store'
  unfolding read read_content
  read-put env pid bytes store store' hash a p free h =
      let files : (put digest env pid bytes store).0 ≡ store' = ap (λ r. r.0) h in
      let (named, where_it_is) = put_done env pid bytes store hash p (ap (λ r. r.1) h) in
      let there : (put digest env pid bytes store).0 (digest bytes) ≡ some bytes =
        elim where_it_is [
          | inr done ↦ done
          | inl present ↦ elim (put-Puts env pid bytes store (digest bytes) p) [
            | inr new ↦ new.1
            | inl same ↦
                same ∙ present-Holds bytes (store (digest bytes)) present (a (digest bytes) p) free
          ]
        ] in
      let content : store' (digest bytes) ≡ some bytes =
        ap (λ f. f (digest bytes)) (sym files) ∙ there in
      (
        named,
        rw (named, content, text_eq_refl (digest bytes)) refl,
        subst IsAddressed files (put-IsAddressed env pid bytes store a),
      )
