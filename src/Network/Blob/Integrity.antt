-- ===== src/Network/Blob/Integrity.antt =====
-- What a blob receiver of crates/network/src/blob.rs publishes, whatever arrives and whatever fails.
use superspace.Base.{
  ℕ, ◌≤◌, ◌≡◌, refl, ◌∙◌, ◌⊎◌, inl, inr, true, false, some, List, [], ◌∷◌, arith, ◌==◌, Bool-cases,
  Option-cases,
}
use superspace.Base.Bytes.{Bytes}
use superspace.Base.Result.{ok, err, Result-cases}
use superspace.Protocol.Message.{BlobChunk, ContentHash}
use superspace.Network.Blob.{
  incomplete, BlobReceiver, Disk, Io, verify_hash, finalize, accept, begin, begin_final, existing,
  opened, created, resumed, finish,
}
use superspace.Network.Blob.Steps.{
  Verifies, Sound, Publishes, verify_hash-Verifies, finalize-Keeps, accept-Keeps,
}

module _ (hash : Bytes → Bytes) where
  -- Chunks one after another, each with what the operating system answers; the sender goes on
  -- whatever `accept` returns.
  unfoldable pub accept_all : List (Io × BlobChunk) → BlobReceiver → Disk → BlobReceiver × Disk
  accept_all [] self disk = (self, disk)
  accept_all ((env, chunk) ∷ rest) self disk =
      let (self', disk', _) = accept hash env self disk chunk in accept_all rest self' disk'

  Publishes-trans :
      (digest : ContentHash) (a b c : Disk)
      → Publishes hash digest a b
      → Publishes hash digest b c
      → Publishes hash digest a c
  Publishes-trans digest a b c h (inr v) = inr v
  Publishes-trans digest a b c (inl e) (inl f) = inl (f ∙ e)
  Publishes-trans digest a b c (inr v) (inl f) = inr (rw f v)

  Publishes-eq :
      (d d' : ContentHash) (a b : Disk) → d ≡ d' → Publishes hash d a b → Publishes hash d' a b
  Publishes-eq d d' a b e p = rw (← e) p

  accept_all-Sound :
      (calls : List (Io × BlobChunk)) (self : BlobReceiver) (disk : Disk)
      → Sound hash self disk
      → let (self', disk') = accept_all calls self disk in
        Sound hash self' disk'
        × Publishes hash self.expected_hash disk disk'
        × (self'.expected_hash ≡ self.expected_hash)
  unfolding accept_all
  accept_all-Sound [] self disk s = (s, inl refl, refl)
  accept_all-Sound ((env, chunk) ∷ rest) self disk s =
      let (self1, disk1, _) = accept hash env self disk chunk in
      let k = accept-Keeps hash env self disk chunk s in
      let (sound, published, same) = accept_all-Sound rest self1 disk1 k.sound in
      (
        sound,
        Publishes-trans self.expected_hash disk disk1 (accept_all rest self1 disk1).1 k.publishes (
            Publishes-eq self1.expected_hash self.expected_hash disk1
              (accept_all rest self1 disk1).1 k.same_hash published),
        same ∙ k.same_hash,
      )

  -- What `begin` gives.
  record Begins (digest : ContentHash) (disk disk' : Disk) (self : BlobReceiver) : Type 0 where
    sound : Sound hash self disk'
    publishes : Publishes hash digest disk disk'
    same_hash : self.expected_hash ≡ digest

  existing-Begins :
      (env : Io) (digest : ContentHash) (size : ℕ) (disk : Disk) (content : Bytes)
      (self : BlobReceiver)
      → disk.final ≡ some content
      → existing hash env digest size disk content ≡ ok self
      → Begins digest disk disk self
  unfolding existing
  existing-Begins env digest size disk content self there h =
      let check = verify_hash hash env.read_final (some content) digest in
      elim (Result-cases check) [
        | inr (x, f) ↦ absurd (ground (arith, f, h))
        | inl (u, f) ↦
            let good = verify_hash-Verifies hash env.read_final (some content) digest f in
            ground (arith, there, f, h, good)
      ]

  resumed_start :
      (env : Io) (digest : ContentHash) (size : ℕ) (disk : Disk) (self : BlobReceiver)
      → resumed env digest size disk ≡ ok self
      → (self.complete ≡ false)
        × (self.received ≤ self.expected_size)
        × (self.expected_hash ≡ digest)
  unfolding resumed
  resumed_start env digest size disk self h = (ground arith, ground arith, ground arith)

  opened-Begins :
      (env : Io) (digest : ContentHash) (disk disk' : Disk) (self self' : BlobReceiver)
      → Sound hash self (created disk)
      → self.expected_hash ≡ digest
      → opened hash env disk (ok self) ≡ (disk', ok self')
      → Begins digest disk disk' self'
  unfolding opened created
  opened-Begins env digest disk disk' self self' s same h =
      let k = finalize-Keeps hash env self (created disk) s in
      elim (Bool-cases (self.received == self.expected_size)) [
        | inr more ↦ ground (arith, more, h, s, same)
        | inl last ↦ elim (Result-cases (finalize hash env self (created disk)).2) [
          | inr (x, f) ↦ absurd (ground (arith, last, f, h))
          | inl (u, f) ↦
              let receiver : (finalize hash env self (created disk)).0 ≡ self' =
                ground (arith, last, f, h) in
              let files : (finalize hash env self (created disk)).1 ≡ disk' =
                ground (arith, last, f, h) in
              record {
                sound = rw (← receiver, ← files) k.sound;
                publishes = rw (← files, ← same) k.publishes;
                same_hash = rw (← receiver) k.same_hash ∙ same;
              }
        ]
      ]

  begin-Begins :
      (env : Io) (digest : ContentHash) (size : ℕ) (disk disk' : Disk) (self : BlobReceiver)
      → begin hash env digest size disk ≡ (disk', ok self)
      → Begins digest disk disk' self
  unfolding begin begin_final
  begin-Begins env digest size disk disk' self h = elim (Option-cases disk.final) [
    | inr (content, there) ↦
        let receiver : existing hash env digest size disk content ≡ ok self =
          ground (arith, there, h) in
        let files : disk ≡ disk' = ground (arith, there, h) in
        let b = existing-Begins env digest size disk content self there receiver in rw (← files) b
    | inl absent ↦ elim (Result-cases (resumed env digest size disk)) [
      | inr (x, e) ↦ absurd (unfold opened in ground (arith, absent, e, h))
      | inl (fresh, e) ↦
          let (unfinished, within, same) = resumed_start env digest size disk fresh e in
          let start : Sound hash fresh (created disk) = record {
            verified = rw unfinished tt;
            within = within;
          } in
          opened-Begins env digest disk disk' fresh self start same (ground (arith, absent, e, h))
    ]
  ]

  -- Whatever chunks arrive at a receiver, in whatever order, and whatever the operating system
  -- refuses: the file at the final path is the one that was there or has the digest, and `finish`
  -- gives that path only if the file there has the digest.
  pub begin-accept_all_verified :
      (env : Io) (digest : ContentHash) (size : ℕ) (disk disk' : Disk) (self : BlobReceiver)
      (calls : List (Io × BlobChunk))
      → begin hash env digest size disk ≡ (disk', ok self)
      → let (last, files) = accept_all calls self disk' in
        Publishes hash digest disk files
        × ((finish last ≡ err incomplete)
            ⊎ ((finish last ≡ ok tt) × Verifies hash digest files.final))
  unfolding finish
  begin-accept_all_verified env digest size disk disk' self calls h =
      let b = begin-Begins env digest size disk disk' self h in
      let (sound, published, same) = accept_all-Sound calls self disk' b.sound in
      let (last, files) = accept_all calls self disk' in
      (
        Publishes-trans digest disk disk' files b.publishes (rw (← b.same_hash) published),
        elim (Bool-cases last.complete) [
          | inr e ↦ inl (rw e refl)
          | inl e ↦ inr (rw e refl, verified_last last files e (same ∙ b.same_hash) sound)
        ],
      )
    where
      verified_last :
          (last : BlobReceiver) (files : Disk)
          → last.complete ≡ true
          → last.expected_hash ≡ digest
          → Sound hash last files
          → Verifies hash digest files.final
      verified_last last files e same s = ground (arith, e, same, s.verified)
