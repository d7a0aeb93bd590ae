-- ===== src/Network/Transfer/Integrity.antt =====
-- What a transfer's receiver (crates/network/src/transfer.rs) holds as complete, whatever arrives and
-- whatever fails.
use superspace.Base.{
  ℕ, zero, suc, ◌≡◌, sym, subst, ◌∙◌, inl, inr, some, List, [], ◌∷◌, arith, ◌==◌, All, Bool-cases,
  Option-cases,
}
use superspace.Base.Bytes.{Bytes}
use superspace.Protocol.Message.{TransferChunk}
use superspace.Network.Blob.{Io}
use superspace.Network.Transfer.{
  Files, ReceivingEntry, TransferReceiver, get, set, accept_at, accept,
}
use superspace.Network.Transfer.Changes.{Apart, AllApart, IsSound, Changes, accept_entry-Changes}

module _ (hash : Bytes → Bytes) where
  get-All :
      (P : ReceivingEntry → Type 0) (i : ℕ) (es : List ReceivingEntry) (e : ReceivingEntry)
      → All P es
      → get i es ≡ some e
      → P e
  unfolding get
  get-All P i [] e h k = cc
  get-All P zero (x ∷ xs) e h k = subst P (ground arith) h.0
  get-All P (suc i) (x ∷ xs) e h k = get-All P i xs e h.1 k

  -- An entry apart from the changed one stays sound, and apart.
  Apart-Changes :
      (x e e' : ReceivingEntry) (files files' : Files)
      → Changes hash e e' files files'
      → Apart x e
      → IsSound hash files x
      → IsSound hash files' x × Apart x e'
  Apart-Changes x e e' files files' c a s = (
    rw (c.frame x.final_path a.left a.finals) s,
    record {
      finals = λ h. a.finals (h ∙ c.same_final);
      left = λ h. a.left (h ∙ c.same_partial);
      right = λ h. a.right (sym c.same_final ∙ h);
    },
  )

  Apart-sym : (e f : ReceivingEntry) → Apart e f → Apart f e
  Apart-sym e f a = record { finals = λ h. a.finals (sym h); left = a.right; right = a.left }

  others-All :
      (e e' : ReceivingEntry) (files files' : Files) (es : List ReceivingEntry)
      → Changes hash e e' files files'
      → All (Apart e) es
      → All (IsSound hash files) es
      → All (IsSound hash files') es × All (Apart e') es
  others-All e e' files files' [] c a s = (tt, tt)
  others-All e e' files files' (x ∷ xs) c a s =
      let (sound, apart) = Apart-Changes x e e' files files' c (Apart-sym e x a.0) s.0 in
      let (sounds, aparts) = others-All e e' files files' xs c a.1 s.1 in
      ((sound, sounds), (Apart-sym x e' apart, aparts))

  set-All :
      (P : ReceivingEntry → Type 0) (i : ℕ) (e : ReceivingEntry) (es : List ReceivingEntry)
      → P e
      → All P es
      → All P (set i e es)
  unfolding set
  set-All P i e [] p h = tt
  set-All P zero e (x ∷ xs) p h = (p, h.1)
  set-All P (suc i) e (x ∷ xs) p h = (h.0, set-All P i e xs p h.1)

  set-Sound :
      (i : ℕ) (e e' : ReceivingEntry) (files files' : Files) (es : List ReceivingEntry)
      → Changes hash e e' files files'
      → get i es ≡ some e
      → AllApart es
      → All (IsSound hash files) es
      → All (IsSound hash files') (set i e' es) × AllApart (set i e' es)
  unfolding get set
  set-Sound i e e' files files' [] c g a s = (tt, tt)
  set-Sound zero e e' files files' (x ∷ xs) c g a s =
      let same : x ≡ e = ground (arith, g) in
      let apart : All (Apart e) xs = subst (λ y. All (Apart y) xs) same a.0 in
      let (sounds, aparts) = others-All e e' files files' xs c apart s.1 in
      ((c.sound, sounds), (aparts, a.1))
  set-Sound (suc i) e e' files files' (x ∷ xs) c g a s =
      let apart = get-All (Apart x) i xs e a.0 g in
      let (sound, apart') = Apart-Changes x e e' files files' c apart s.0 in
      let (sounds, aparts) = set-Sound i e e' files files' xs c g a.1 s.1 in
      ((sound, sounds), (set-All (Apart x) i e' xs apart' a.0, aparts))

  -- Every complete entry has verified content in place, and no entry writes into another's file.
  pub record Sound (self : TransferReceiver) (files : Files) : Type 0 where
    pub sound : All (IsSound hash files) self.entries
    pub apart : AllApart self.entries

  accept-Sound :
      (env : Io) (self : TransferReceiver) (files : Files) (chunk : TransferChunk)
      → Sound self files
      → Sound (accept hash env self files chunk).0 (accept hash env self files chunk).1
  unfolding accept accept_at
  accept-Sound env self files chunk s = elim (Bool-cases (chunk.transfer_id == self.manifest.id)) [
    | inr wrong ↦ rw wrong s
    | inl right ↦ elim (Option-cases (get chunk.entry_index self.entries)) [
      | inl none_there ↦ rw (right, none_there) s
      | inr (e, there) ↦
          let c =
            accept_entry-Changes hash env e files chunk
              (get-All (IsSound hash files) chunk.entry_index self.entries e s.sound there) in
          let (sounds, aparts) =
            set-Sound chunk.entry_index e _ files _ self.entries c there s.apart s.sound in
          rw (right, there) (record { sound = sounds; apart = aparts })
    ]
  ]

  -- Chunks one after another, each with what the operating system answers; the peer goes on whatever
  -- `accept` returns.
  unfoldable pub accept_all :
      List (Io × TransferChunk) → TransferReceiver → Files → TransferReceiver × Files
  accept_all [] self files = (self, files)
  accept_all ((env, chunk) ∷ rest) self files =
      let (self', files', _) = accept hash env self files chunk in accept_all rest self' files'

  pub accept_all-Sound :
      (calls : List (Io × TransferChunk)) (self : TransferReceiver) (files : Files)
      → Sound self files
      → Sound (accept_all calls self files).0 (accept_all calls self files).1
  unfolding accept_all
  accept_all-Sound [] self files s = s
  accept_all-Sound ((env, chunk) ∷ rest) self files s =
      accept_all-Sound rest _ _ (accept-Sound env self files chunk s)
