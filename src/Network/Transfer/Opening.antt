-- ===== src/Network/Transfer/Opening.antt =====
-- `begin` of crates/network/src/transfer.rs gives a receiver that holds as complete only what it has
-- verified, and so does every later state.
use superspace.Base.{ℕ, suc, ◌+◌, ◌≡◌, ◌≢◌, List, ◌∷◌, All}
use superspace.Base.Bytes.{Bytes}
use superspace.Base.Result.{ok}
use superspace.Base.Text.{Text}
use superspace.Protocol.Message.{TransferEntry}
use superspace.Network.Blob.{Io}
use superspace.Network.Transfer.{Files, ReceivingEntry}
use superspace.Network.Transfer.Begin.{Paths, begin_entry, Gathered, begin_entries}
use superspace.Network.Transfer.Changes.{IsSound}

module _ (hash : Bytes → Bytes) (paths : Paths) where
  -- A path that is none of the entries' own.
  abbrev Avoids : Text → List ReceivingEntry → Type 0
  Avoids p = All (λ e. (p ≢ e.partial_path) × (p ≢ e.final_path))

  record Opened (files files' : Files) (es : List ReceivingEntry) : Type 0 where
    sounds : All (IsSound hash files') es
    frame : (p : Text) → Avoids p es → files' p ≡ files p

  -- One round of the loop, and the rest.
  record Round (env : ℕ → Io) (i : ℕ) (entry : TransferEntry) (rest : List TransferEntry)
      (total : ℕ) (files files' : Files) (g : Gathered) : Type 0 where
    e : ReceivingEntry
    between : Files
    required : ℕ
    later : Gathered
    here : begin_entry hash paths (env i) i entry files ≡ (between, ok e)
    after :
        begin_entries hash paths env (suc i) rest required (total + entry.size) between
        ≡ (files', ok later)
    both : g.entries ≡ e ∷ later.entries
