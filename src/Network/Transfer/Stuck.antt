-- ===== src/Network/Transfer/Stuck.antt =====
-- A corrupted file of a transfer (crates/network/src/transfer.rs): what `accept` leaves behind, and what
-- that does to the next `begin`.
use superspace.Base.{
  ℕ, ◌+◌, ◌^◌, ◌<◌, ◌≤◌, ◌≡◌, ◌≢◌, refl, sym, ap, ◌∙◌, true, false, inl, inr, none, some, ◌++◌,
  arith, ◌==◌, length, Bool-cases, length-append, leb,
}
use superspace.Base.Bytes.{Bytes}
use superspace.Base.Result.{ok, err}
use superspace.Base.Text.{text_eq, text_eq→≡, text_eq_refl}
use superspace.Protocol.Message.{TransferEntry, TransferChunk}
use superspace.Network.Blob.{Io, max_chunk_size}
use superspace.Network.Transfer.{
  hash_mismatch, Files, put, ReceivingEntry, checked, verify_hash, verified, complete_entry,
  written, write, accept_checked, accept_entry,
}
use superspace.Network.Transfer.Changes.{put-other}
use superspace.Network.Transfer.Begin.{
  Paths, unopened, outcome, opened, begin_partial, begin_final, begin_entry,
}

-- The operating system does what `accept` and `begin` ask of it.
pub record Works (env : Io) : Type 0 where
  pub makes : env.create_dir_all ≡ true
  pub stats : env.metadata ≡ true
  pub opens : env.open_partial ≡ true
  pub writes : env.write_all ≡ none
  pub syncs : env.sync_all ≡ true
  pub reads : env.read_partial ≡ true

module _ (hash : Bytes → Bytes) where
  -- The chunk is the last one of the entry, but the whole has another digest than the announced one.
  pub record Corrupts (e : ReceivingEntry) (files : Files) (old : Bytes) (chunk : TransferChunk)
      : Type 0 where
    pub unfinished : e.complete ≡ false
    pub opened : e.file ≡ true
    pub held : files e.partial_path ≡ some old
    pub durable : length old ≡ e.received
    pub next : chunk.offset ≡ e.received
    pub filled : 0 < length chunk.bytes
    pub bounded : length chunk.bytes ≤ max_chunk_size
    pub last : e.received + length chunk.bytes ≡ e.expected_size
    pub sized : e.expected_size < 2 ^ 64
    pub wrong : hash (old ++ chunk.bytes) ≢ e.expected_hash
    pub absent : files e.final_path ≡ none
    pub apart : e.final_path ≢ e.partial_path

  verify_hash_wrong :
      (content digest : Bytes)
      → hash content ≢ digest
      → verify_hash hash true (some content) digest ≡ err hash_mismatch
  unfolding verify_hash
  verify_hash_wrong content digest h = elim (Bool-cases (text_eq (hash content) digest)) [
    | inl e ↦ absurd (h (text_eq→≡ _ _ e))
    | inr e ↦ rw e refl
  ]

  accept_entry_corrupt :
      (env : Io) (e : ReceivingEntry) (files : Files) (old : Bytes) (chunk : TransferChunk)
      → Works env
      → Corrupts e files old chunk
      → ((accept_entry hash env e files chunk).2 ≡ err hash_mismatch)
        × ((accept_entry hash env e files chunk).1
            ≡ put e.partial_path (some (old ++ chunk.bytes)) files)
  unfolding accept_entry accept_checked checked write written complete_entry verified
  accept_entry_corrupt env e files old chunk w c =
      let content = old ++ chunk.bytes in
      let bad = verify_hash_wrong content e.expected_hash c.wrong in
      let admitted : checked e chunk ≡ ok (e.received + length chunk.bytes) =
        ground (arith, c.unfinished, c.opened, c.next, c.filled, c.bounded, c.last, c.sized) in
      let whole : (e.received + length chunk.bytes == e.expected_size) ≡ true =
        ground (arith, c.last) in
      rw (admitted, w.writes, c.held, whole, w.syncs, w.reads, text_eq_refl e.partial_path, bad)
        (refl, refl)

  begin_entry_corrupt :
      (paths : Paths) (env : Io) (i : ℕ) (entry : TransferEntry) (files : Files) (content : Bytes)
      → Works env
      → files (paths.final_path i entry) ≡ none
      → files (paths.partial_path i entry) ≡ some content
      → length content ≡ entry.size
      → hash content ≢ entry.hash
      → begin_entry hash paths env i entry files ≡ (files, err hash_mismatch)
  unfolding begin_entry begin_final begin_partial opened complete_entry verified outcome unopened
  begin_entry_corrupt paths env i entry files content w absent there size wrong =
      let bad = verify_hash_wrong content entry.hash wrong in
      let fits : leb (length content) entry.size ≡ true = ground (arith, size) in
      let whole : (length content == entry.size) ≡ true = ground (arith, size) in
      rw (w.makes, absent, there, w.stats, fits, w.opens, whole, w.syncs, w.reads, there, bad) refl

  -- A file whose last chunk makes it differ from its announced digest stays on disk at full length:
  -- `accept` reports the mismatch, and so does every later `begin` for that entry, which changes
  -- nothing; the operating system refuses nothing.
  pub accept_entry-begin_entry_stuck :
      (paths : Paths) (env env' : Io) (i : ℕ) (entry : TransferEntry) (e : ReceivingEntry)
      (files : Files) (old : Bytes) (chunk : TransferChunk)
      → Works env
      → Works env'
      → Corrupts e files old chunk
      → e.partial_path ≡ paths.partial_path i entry
      → e.final_path ≡ paths.final_path i entry
      → e.expected_size ≡ entry.size
      → e.expected_hash ≡ entry.hash
      → let (_, files', result) = accept_entry hash env e files chunk in
        (result ≡ err hash_mismatch)
        × (begin_entry hash paths env' i entry files' ≡ (files', err hash_mismatch))
  accept_entry-begin_entry_stuck paths env env' i entry e files old chunk w w' c a b s d =
      let content = old ++ chunk.bytes in
      let (fails, left) = accept_entry_corrupt env e files old chunk w c in
      let files' = put e.partial_path (some content) files in
      let absent : files' (paths.final_path i entry) ≡ none =
        ap files' (sym b)
        ∙ put-other e.partial_path e.final_path (some content) files c.apart
        ∙ c.absent in
      let there : files' (paths.partial_path i entry) ≡ some content =
        ap files' (sym a) ∙ rw (text_eq_refl e.partial_path) refl in
      let size : length content ≡ entry.size =
        omega (arith, length-append old chunk.bytes, c.durable, c.last, s) in
      (
        fails,
        rw left (
            begin_entry_corrupt paths env' i entry files' content w' absent there size
              (λ h. c.wrong (h ∙ sym d))),
      )
