-- ===== src/Network/Blob/Steps.antt =====
-- What one call on a blob receiver keeps (crates/network/src/blob.rs).
use superspace.Base.{
  ℕ, ◌≤◌, ◌≡◌, refl, ◌⊎◌, inl, inr, Bool, true, false, not, Option, none, some, arith, Bool-cases,
  Option-cases, ◌&&◌,
}
use superspace.Base.Bytes.{Bytes}
use superspace.Base.Result.{ok, Result-cases}
use superspace.Base.Text.{text_eq→≡}
use superspace.Protocol.Message.{BlobChunk, ContentHash}
use superspace.Network.Blob.{
  BlobReceiver, Disk, Io, Outcome, verify_hash, finalize, verified, publish, rename_failed,
  remove_partial, is_file, append, written, write, admitted, checked, accept,
}
use superspace.Network.Blob.Accept.{checked-Continues}

module _ (hash : Bytes → Bytes) where
  -- The file is there and its content has the digest.
  abbrev pub Verifies : ContentHash → Option Bytes → Type 0
  Verifies digest none = ⊥
  Verifies digest (some content) = hash content ≡ digest

  abbrev IfComplete : Bool → ContentHash → Option Bytes → Type 0
  IfComplete false digest file = Unit
  IfComplete true digest file = Verifies digest file

  -- A complete receiver has verified content in place; no more bytes were received than there are.
  pub record Sound (self : BlobReceiver) (disk : Disk) : Type 0 where
    pub verified : IfComplete self.complete self.expected_hash disk.final
    pub within : self.received ≤ self.expected_size

  -- What happens to the final file: nothing, or verified content is put in its place.
  abbrev pub Publishes : ContentHash → Disk → Disk → Type 0
  Publishes digest old new = (new.final ≡ old.final) ⊎ Verifies digest new.final

  pub verify_hash-Verifies :
      (readable : Bool) (file : Option Bytes) (digest : ContentHash)
      → verify_hash hash readable file digest ≡ ok tt
      → Verifies digest file
  unfolding verify_hash
  verify_hash-Verifies readable none digest h = cc
  verify_hash-Verifies readable (some content) digest h =
      text_eq→≡ (hash content) digest (ground arith)

  -- What a call of `finalize` or `accept` keeps.
  pub record Keeps (self : BlobReceiver) (disk : Disk) (out : Outcome) : Type 0 where
    pub sound : Sound out.0 out.1
    pub publishes : Publishes self.expected_hash disk out.1
    pub same_hash : out.0.expected_hash ≡ self.expected_hash
    pub same_size : out.0.expected_size ≡ self.expected_size

  publish-Keeps :
      (env : Io) (self : BlobReceiver) (disk : Disk)
      → Sound self disk
      → Verifies self.expected_hash disk.partial
      → Keeps self disk (publish hash env self disk)
  unfolding publish rename_failed is_file remove_partial
  publish-Keeps env self disk s v = elim (Bool-cases env.rename) [
    | inl e ↦ rw e (record {
      sound = record { verified = v; within = s.within };
      publishes = inr v;
      same_hash = refl;
      same_size = refl;
    })
    | inr e ↦ elim (Option-cases disk.final) [
      | inl none_there ↦ ground (arith, e, none_there, s)
      | inr (content, there) ↦
          let check = verify_hash hash env.read_final disk.final self.expected_hash in
          elim (Result-cases check) [
            | inr (x, f) ↦ ground (arith, e, there, f, s)
            | inl (u, f) ↦
                let good = verify_hash-Verifies env.read_final disk.final self.expected_hash f in
                ground (arith, e, there, f, s, good)
          ]
    ]
  ]

  verified-Keeps :
      (env : Io) (self : BlobReceiver) (disk : Disk)
      → Sound self disk
      → Keeps self disk (
          verified hash env self disk
            (verify_hash hash env.read_partial disk.partial self.expected_hash))
  unfolding verified remove_partial
  verified-Keeps env self disk s =
      let check = verify_hash hash env.read_partial disk.partial self.expected_hash in
      elim (Result-cases check) [
        | inl (u, f) ↦ rw f (
            publish-Keeps env self disk s
              (verify_hash-Verifies env.read_partial disk.partial self.expected_hash f))
        | inr (x, f) ↦ ground (arith, f, s)
      ]

  pub finalize-Keeps :
      (env : Io) (self : BlobReceiver) (disk : Disk)
      → Sound self disk
      → Keeps self disk (finalize hash env self disk)
  unfolding finalize
  finalize-Keeps env self disk s =
      let closed = record self { file = false } in
      let kept =
        verified-Keeps env closed disk (record { verified = s.verified; within = s.within }) in
      elim (Bool-cases (self.file && not env.sync_all)) [
        | inl e ↦ ground (arith, e, s)
        | inr e ↦ rw e (record {
          sound = kept.sound;
          publishes = kept.publishes;
          same_hash = kept.same_hash;
          same_size = kept.same_size;
        })
      ]

  write-Keeps :
      (env : Io) (o : Option ℕ) (self : BlobReceiver) (disk : Disk) (chunk : BlobChunk) (n : ℕ)
      → self.complete ≡ false
      → n ≤ self.expected_size
      → Sound self disk
      → Keeps self disk (write hash env o self disk chunk n)
  unfolding write written
  write-Keeps env (some k) self disk chunk n unfinished fits s = ground (arith, s)
  write-Keeps env none self disk chunk n unfinished fits s =
      let self' = record self { received = n } in
      let disk' = record disk { partial = append disk.partial chunk.bytes } in
      let kept = finalize-Keeps env self' disk' (record { verified = s.verified; within = fits }) in
      elim (Bool-cases chunk.complete) [
        | inr more ↦ ground (arith, more, s, fits)
        | inl last ↦ rw last (record {
          sound = kept.sound;
          publishes = kept.publishes;
          same_hash = kept.same_hash;
          same_size = kept.same_size;
        })
      ]

  pub accept-Keeps :
      (env : Io) (self : BlobReceiver) (disk : Disk) (chunk : BlobChunk)
      → Sound self disk
      → Keeps self disk (accept hash env self disk chunk)
  unfolding accept admitted
  accept-Keeps env self disk chunk s = elim (Result-cases (checked self chunk)) [
    | inr (x, e) ↦ ground (arith, e, s)
    | inl (n, e) ↦
        let (c, ends) = checked-Continues self chunk n e in
        rw e (write-Keeps env env.write_all self disk chunk n c.unfinished (rw ends c.fits) s)
  ]
