-- ===== src/Network/Transfer/Entries.antt =====
-- How `begin` of crates/network/src/transfer.rs opens one entry.
use superspace.Base.{
  ℕ, ◌≡◌, ◌≢◌, refl, sym, ap, subst, ◌∙◌, inl, inr, true, Option, none, some, [], arith, ◌==◌,
  Bool-cases, Option-cases, length, leb,
}
use superspace.Base.Bytes.{Bytes}
use superspace.Base.Result.{ok, err, Result-cases}
use superspace.Base.Text.{Text}
use superspace.Protocol.Message.{TransferEntry}
use superspace.Network.Blob.{Io}
use superspace.Network.Transfer.{Files, put, ReceivingEntry, Outcome, verify_hash, complete_entry}
use superspace.Network.Transfer.Begin.{
  Paths, Call, unopened, resumed_complete, outcome, opened, begin_partial, begin_final, begin_entry,
}
use superspace.Network.Transfer.Changes.{
  put-other, IsSound, Changes, complete_entry-Changes, verify_hash-Verifies,
}

module _ (hash : Bytes → Bytes) (paths : Paths) where
  -- An entry that was opened, and what the call changed.
  pub record Opens (i : ℕ) (entry : TransferEntry) (files files' : Files) (e : ReceivingEntry)
      : Type 0 where
    pub same_partial : e.partial_path ≡ paths.partial_path i entry
    pub same_final : e.final_path ≡ paths.final_path i entry
    pub sound : IsSound hash files' e
    pub frame :
        (p : Text)
        → p ≢ paths.partial_path i entry
        → p ≢ paths.final_path i entry
        → files' p ≡ files p

  -- The two components of a call that returned.
  pub returns :
      {A : Type 0} (r : Call A) (files' : Files) (a : A)
      → r ≡ (files', ok a)
      → (r.0 ≡ files') × (r.1 ≡ ok a)
  returns r files' a h = (ap (λ c. c.0) h, ap (λ c. c.1) h)

  outcome-Opens :
      (i : ℕ) (entry : TransferEntry) (start : ReceivingEntry) (files files' : Files) (o : Outcome)
      (e : ReceivingEntry)
      → start.partial_path ≡ paths.partial_path i entry
      → start.final_path ≡ paths.final_path i entry
      → Changes hash start o.0 files o.1
      → outcome o ≡ (files', ok e)
      → Opens i entry files files' e
  unfolding outcome
  outcome-Opens i entry start files files' (x, fs, err error) e a b c h =
      absurd (ground (arith, ap (λ r. r.1) h))
  outcome-Opens i entry start files files' (x, fs, ok u) e a b c h =
      let (f, g) = returns (fs, ok x) files' e h in
      let same : x ≡ e = ground (arith, g) in
      record {
        same_partial = ap (λ y. y.partial_path) (sym same) ∙ c.same_partial ∙ a;
        same_final = ap (λ y. y.final_path) (sym same) ∙ c.same_final ∙ b;
        sound = subst (IsSound hash files') same (subst (λ k. IsSound hash k x) f c.sound);
        frame = λ p l r. ap (λ k. k p) (sym f) ∙ c.frame p (λ q. l (q ∙ a)) (λ q. r (q ∙ b));
      }

  opened-Opens :
      (env : Io) (i : ℕ) (entry : TransferEntry) (n : ℕ) (files files' : Files) (e : ReceivingEntry)
      → opened hash paths env i entry n files ≡ (files', ok e)
      → Opens i entry files files' e
  unfolding opened unopened
  opened-Opens env i entry n files files' e h =
      let start = record (unopened hash paths i entry n) { file = true } in
      let c = complete_entry-Changes hash env start files refl in
      elim (Bool-cases (n == entry.size)) [
        | inr more ↦
            outcome-Opens i entry start files files' (start, files, ok tt) e refl refl
              (record {
                same_partial = refl;
                same_final = refl;
                same_hash = refl;
                sound = tt;
                frame = λ p _ _. refl;
              })
              (unfold outcome in rw more at h)
        | inl last ↦
            outcome-Opens i entry start files files' (complete_entry hash env start files) e refl
              refl c (rw last at h)
      ]

  begin_partial-Opens :
      (env : Io) (i : ℕ) (entry : TransferEntry) (files files' : Files) (o : Option Bytes)
      (e : ReceivingEntry)
      → begin_partial hash paths env i entry files o ≡ (files', ok e)
      → Opens i entry files files' e
  unfolding begin_partial
  begin_partial-Opens env i entry files files' none e h = elim (Bool-cases env.open_partial) [
    | inr bad ↦ absurd (ground (arith, bad, ap (λ r. r.1) h))
    | inl good ↦
        let fresh = put (paths.partial_path i entry) (some []) files in
        let o = opened-Opens env i entry 0 fresh files' e (rw good at h) in
        record {
          same_partial = o.same_partial;
          same_final = o.same_final;
          sound = o.sound;
          frame =
              λ p l r. o.frame p l r ∙ put-other (paths.partial_path i entry) p (some []) files l;
        }
  ]
  begin_partial-Opens env i entry files files' (some content) e h = elim (Bool-cases env.metadata) [
    | inr bad ↦ absurd (ground (arith, bad, ap (λ r. r.1) h))
    | inl known ↦ elim (Bool-cases (leb (length content) entry.size)) [
      | inr long ↦ absurd (ground (arith, known, long, ap (λ r. r.1) h))
      | inl fits ↦ elim (Bool-cases env.open_partial) [
        | inr bad ↦ absurd (ground (arith, known, fits, bad, ap (λ r. r.1) h))
        | inl good ↦
            opened-Opens env i entry (length content) files files' e (rw (known, fits, good) at h)
      ]
    ]
  ]

  resumed_complete-Opens :
      (env : Io) (i : ℕ) (entry : TransferEntry) (files : Files) (content : Bytes)
      (e : ReceivingEntry)
      → files (paths.final_path i entry) ≡ some content
      → resumed_complete hash paths env i entry content ≡ ok e
      → Opens i entry files files e
  unfolding resumed_complete unopened
  resumed_complete-Opens env i entry files content e there h =
      elim (Result-cases (verify_hash hash env.read_final (some content) entry.hash)) [
        | inr (x, f) ↦ absurd (ground (arith, f, h))
        | inl (u, f) ↦
            let right = verify_hash-Verifies hash env.read_final (some content) entry.hash f in
            let made : record (unopened hash paths i entry entry.size) { complete = true } ≡ e =
              ground (arith, f, h) in
            record {
              same_partial = ap (λ x. x.partial_path) (sym made);
              same_final = ap (λ x. x.final_path) (sym made);
              sound = subst (IsSound hash files) made (rw there right);
              frame = λ p _ _. refl;
            }
      ]

  pub begin_entry-Opens :
      (env : Io) (i : ℕ) (entry : TransferEntry) (files files' : Files) (e : ReceivingEntry)
      → begin_entry hash paths env i entry files ≡ (files', ok e)
      → Opens i entry files files' e
  unfolding begin_entry begin_final
  begin_entry-Opens env i entry files files' e h = elim (Bool-cases env.create_dir_all) [
    | inr bad ↦ absurd (ground (arith, bad, ap (λ r. r.1) h))
    | inl made ↦ elim (Option-cases (files (paths.final_path i entry))) [
      | inl absent ↦
          begin_partial-Opens env i entry files files' (files (paths.partial_path i entry)) e
            (rw (made, absent) at h)
      | inr (content, there) ↦
          let (f, g) =
            returns (files, resumed_complete hash paths env i entry content) files' e
              (rw (made, there) at h) in
          let o = resumed_complete-Opens env i entry files content e there g in
          record {
            same_partial = o.same_partial;
            same_final = o.same_final;
            sound = subst (λ k. IsSound hash k e) f o.sound;
            frame = λ p l r. ap (λ k. k p) (sym f);
          }
    ]
  ]
