-- ===== src/Network/Transfer/Changes.antt =====
-- What a call on one entry of a transfer may change (crates/network/src/transfer.rs).
use superspace.Base.{
  ℕ, ◌≡◌, ◌≢◌, refl, ◌∙◌, inl, inr, Bool, true, false, Option, none, some, List, [], ◌∷◌, arith,
  ◌==◌, All, Bool-cases, take,
}
use superspace.Base.Bytes.{Bytes}
use superspace.Base.Result.{ok, Result-cases}
use superspace.Base.Text.{Text, text_eq, text_eq→≡, text_eq_refl}
use superspace.Protocol.Message.{TransferChunk, ContentHash}
use superspace.Network.Blob.{Io}
use superspace.Network.Transfer.{
  Files, put, ReceivingEntry, appended, checked, verify_hash, rename, verified, complete_entry,
  written, write, accept_checked, accept_entry,
}

other_path : (p q : Text) → p ≢ q → text_eq p q ≡ false
other_path p q h = elim (Bool-cases (text_eq p q)) [
  | inl e ↦ absurd (h (text_eq→≡ p q e))
  | inr e ↦ e
]

pub put-other :
    (path p : Text) (v : Option Bytes) (files : Files) → p ≢ path → put path v files p ≡ files p
put-other path p v files h = rw (other_path p path h) refl

-- Neither entry's final file is a file of the other.
pub record Apart (e f : ReceivingEntry) : Type 0 where
  pub finals : e.final_path ≢ f.final_path
  pub left : e.final_path ≢ f.partial_path
  pub right : f.final_path ≢ e.partial_path

abbrev pub AllApart : List ReceivingEntry → Type 0
AllApart [] = Unit
AllApart (e ∷ es) = All (Apart e) es × AllApart es

module _ (hash : Bytes → Bytes) where
  abbrev pub Verifies : ContentHash → Option Bytes → Type 0
  Verifies digest none = ⊥
  Verifies digest (some content) = hash content ≡ digest

  abbrev IfComplete : Bool → ContentHash → Option Bytes → Type 0
  IfComplete false digest file = Unit
  IfComplete true digest file = Verifies digest file

  -- A complete entry's final file has the announced digest.
  abbrev pub IsSound : Files → ReceivingEntry → Type 0
  IsSound files e = IfComplete e.complete e.expected_hash (files e.final_path)

  -- What a call on an entry may change: its own two files, and the final one only to verified content.
  pub record Changes (e e' : ReceivingEntry) (files files' : Files) : Type 0 where
    pub same_partial : e'.partial_path ≡ e.partial_path
    pub same_final : e'.final_path ≡ e.final_path
    pub same_hash : e'.expected_hash ≡ e.expected_hash
    pub sound : IsSound files' e'
    pub frame : (p : Text) → p ≢ e.partial_path → p ≢ e.final_path → files' p ≡ files p

  pub verify_hash-Verifies :
      (readable : Bool) (file : Option Bytes) (digest : ContentHash)
      → verify_hash hash readable file digest ≡ ok tt
      → Verifies digest file
  unfolding verify_hash
  verify_hash-Verifies readable none digest h = cc
  verify_hash-Verifies readable (some content) digest h =
      text_eq→≡ (hash content) digest (ground arith)

  pub complete_entry-Changes :
      (env : Io) (e : ReceivingEntry) (files : Files)
      → e.complete ≡ false
      → Changes e (complete_entry hash env e files).0 files (complete_entry hash env e files).1
  unfolding complete_entry verified rename
  complete_entry-Changes env e files unfinished =
      let stays : Changes e (record e { file = false }) files files = record {
        same_partial = refl;
        same_final = refl;
        same_hash = refl;
        sound = rw unfinished tt;
        frame = λ p _ _. refl;
      } in
      let check = verify_hash hash env.read_partial (files e.partial_path) e.expected_hash in
      elim (Bool-cases env.sync_all) [
        | inr bad ↦ rw bad (record {
          same_partial = refl;
          same_final = refl;
          same_hash = refl;
          sound = rw unfinished tt;
          frame = λ p _ _. refl;
        })
        | inl good ↦ elim (Result-cases check) [
          | inr (x, f) ↦ rw (good, f) stays
          | inl (u, f) ↦
              let right =
                verify_hash-Verifies env.read_partial (files e.partial_path) e.expected_hash f in
              elim (Bool-cases env.rename) [
                | inr bad ↦ rw (good, f, bad) stays
                | inl fine ↦
                    rw (good, f, fine)
                      (record {
                        same_partial = refl;
                        same_final = refl;
                        same_hash = refl;
                        sound = rw (text_eq_refl e.final_path) right;
                        frame = λ p a b.
                            rw (other_path p e.final_path b, other_path p e.partial_path a) refl;
                      })
              ]
        ]
      ]

  -- The partial file grows, with whatever the entry has become.
  grown-Changes :
      (e : ReceivingEntry) (files : Files) (content : Option Bytes) (n : ℕ)
      → e.complete ≡ false
      → Changes e (record e { received = n }) files (put e.partial_path content files)
  grown-Changes e files content n unfinished = record {
    same_partial = refl;
    same_final = refl;
    same_hash = refl;
    sound = rw unfinished tt;
    frame = λ p a b. put-other e.partial_path p content files a;
  }

  write-Changes :
      (env : Io) (o : Option ℕ) (e : ReceivingEntry) (files : Files) (bytes : Bytes) (n : ℕ)
      → e.complete ≡ false
      → Changes e (write hash env o e files bytes n).0 files (write hash env o e files bytes n).1
  unfolding write written
  write-Changes env (some k) e files bytes n unfinished =
      let grown =
        grown-Changes e files (appended (files e.partial_path) (take k bytes)) e.received
          unfinished in
      record {
        same_partial = refl;
        same_final = refl;
        same_hash = refl;
        sound = rw unfinished tt;
        frame = grown.frame;
      }
  write-Changes env none e files bytes n unfinished =
      let content = appended (files e.partial_path) bytes in
      let grown = grown-Changes e files content n unfinished in
      let done =
        complete_entry-Changes env (record e { received = n }) (put e.partial_path content files)
          unfinished in
      elim (Bool-cases (n == e.expected_size)) [
        | inr more ↦ rw more grown
        | inl last ↦ rw last (record {
          same_partial = done.same_partial;
          same_final = done.same_final;
          same_hash = done.same_hash;
          sound = done.sound;
          frame = λ p a b. done.frame p a b ∙ grown.frame p a b;
        })
      ]

  checked_unfinished :
      (e : ReceivingEntry) (chunk : TransferChunk) (n : ℕ)
      → checked e chunk ≡ ok n
      → e.complete ≡ false
  unfolding checked
  checked_unfinished e chunk n h = ground arith

  pub accept_entry-Changes :
      (env : Io) (e : ReceivingEntry) (files : Files) (chunk : TransferChunk)
      → IsSound files e
      → Changes e
          (accept_entry hash env e files chunk).0
          files
          (accept_entry hash env e files chunk).1
  unfolding accept_entry accept_checked
  accept_entry-Changes env e files chunk s = elim (Result-cases (checked e chunk)) [
    | inr (x, f) ↦ rw f (record {
      same_partial = refl;
      same_final = refl;
      same_hash = refl;
      sound = s;
      frame = λ p _ _. refl;
    })
    | inl (n, f) ↦
        rw f
          (write-Changes env env.write_all e files chunk.bytes n (checked_unfinished e chunk n f))
  ]
