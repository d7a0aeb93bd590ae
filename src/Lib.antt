-- ===== src/Lib.antt =====
-- Superspace: clipboard sharing between a person's devices. A copy on one device is captured, stored
-- in the history, queued for the peers and sent in frames; a peer's event is checked, ordered against
-- what is known, written to the desktop clipboard and stored.
--
-- Which file models what:
-- - Protocol/Clock: crates/protocol/src/clock.rs, the hybrid logical clock. A u64 and a u32 are numbers;
--   the saturation of the u32 is written out.
-- - Protocol/Message: crates/protocol/src/message.rs, the messages and the validation of a manifest,
--   against Protocol/Paths, which is what the program uses of std::path on Unix. Paths/Resolve says what
--   a path means below a directory.
-- - Network/Replication: crates/network/src/replication.rs, ReplicationLedger. The HashSet of seen ids is
--   a list whose order nothing reads, the VecDeque a list with its front first, the HashMap of queues an
--   association list. Order, Seen, Pending, Invariant, Window and Convergence prove its properties.
-- - Network/Frame: crates/network/src/frame.rs. CBOR is a parameter (Codec); a QUIC stream is a reliable
--   ordered stream of bytes (Streams).
-- - Network/Blob: crates/network/src/blob.rs, BlobReceiver, on the two files that its paths name; what the
--   operating system answers to each call is an argument (Io). Blob/Session is the two ends of a blob
--   request in crates/network/src/session.rs. Accept, Integrity and Exchange prove what they promise.
-- - Network/Transfer: crates/network/src/transfer.rs, TransferReceiver, on a map from paths to the contents of
--   the regular files; how an entry's two paths are named is an argument. Begin is its begin; Integrity,
--   Opening and Stuck prove what it holds as complete and what a corrupted file does.
-- - Platform/Clipboard: crates/platform/src/clipboard.rs, ClipboardValue, the capture policy and
--   ClipboardMonitor. The desktop clipboard (Backend), BLAKE3 and the lower case of text are parameters.
-- - Storage/Blob: crates/storage/src/blob.rs, BlobStore, on a map from names to contents; what the operating
--   system answers is an argument (Io), and so is the digest. Addressing proves what the store keeps.
-- - Storage/History: crates/storage/src/clipboard.rs, ClipboardStore, its table as a list of rows; the full-text
--   index is a parameter. Query is query_recent, Refinement is the map from ids to entries that the store
--   stands for, and Storage/Like is the LIKE operator of SQLite with its patterns.
-- - Storage/Trusted: crates/storage/src/trusted.rs, TrustedDeviceStore, its table as a list of rows, rows that sort
--   alike in their order. Refinement is the map that it stands for, Revocation what a revoked device stays.
-- - Storage/Entry: the types of crates/storage/src/clipboard.rs that a history entry has.
-- - Sync/Codec: the payload formats of crates/sync/src/lib.rs. PNG is a parameter; a usize has 64 bits.
-- - Sync/Parts and Sync/Coordinator: ClipboardSync of crates/sync/src/lib.rs. A method takes the state
--   and returns the state and a result, so that what it wrote before it failed stays written
--   (Sync/Calls). Sync/Frames says what the inner calls leave alone.
-- - Sync/Restore: restore_history_value of crates/sync/src/lib.rs, on Storage/Blob. Pasting proves it against
--   what the coordinator stores.
-- - Extensions/Policy: crates/extensions/src/policy.rs, what an extension may do, on the capabilities of
--   crates/extensions/src/manifest.rs. Confinement proves what each check admits.
-- - Extensions/Manifest and Extensions/Package: crates/extensions/src/manifest.rs and package.rs. JSON, BLAKE3
--   and the validator of WebAssembly are parameters (Formats). Accepted says which bytes are read as a
--   package, Identifier what an identifier is as a path.
-- - Extensions/Registry: crates/extensions/src/registry.rs, the signed records and their verification; Ed25519 and
--   semantic versions are parameters (Libraries). Registry/Publish is publish_package on a map from paths to
--   contents, with what the operating system answers as an argument (Io); Registry/Catalog is load_registry on a
--   listing of the index, and the catalog. Payload says what a signature covers.
-- - Extensions/View: crates/extensions/src/view.rs, the views that an extension declares and the navigation
--   stack, its end first; JSON and the tests of floating-point numbers are parameters (Host).
-- - Core/Search: crates/core/src/search.rs, the fuzzy search. Subsequence and Ranking prove what it finds and in
--   which order.
-- - Core/Preferences: crates/core/src/preferences.rs, the aliases, the favorites and the counts of the launcher's
--   items. Validity is about the changes in memory, Saving about the file; JSON is a parameter (Json), and what
--   the operating system answers is an argument (Read, Io).
-- - Ui/Palette: crates/ui/src/model.rs, the model of the palette, its events in Palette/Update.
-- - Base: booleans and comparisons on the native numbers, lists, bytes, UTF-8 text, integers, results.
--
-- How they interact: the coordinator holds a monitor and a ledger. A poll goes from the monitor by the
-- policy and the encoder to the history and, unless the copy is sensitive, to the ledger's queues; a
-- peer's event goes by the decoder and the ledger's preview to the monitor, the history and the ledger.
--
-- Fuel: the loop of decode_paths runs on the number of bytes as fuel; each round reads eight at least.
-- The loop of BlobRequest::serve runs on the size of the
-- source; each round sends a byte at least. Every other loop is structural.
--
-- How the program is built matters: the argument of debug_assert_eq! runs only with debug assertions,
-- which Services.debug_assertions says. A failing debug assertion would panic; this one cannot fail,
-- since preview reads nothing that a merge of the clock changes.
--
-- Not modelled: the sending side of a transfer of files and the move of the finished directory,
-- pairing, discovery and sessions, the installation and the host of the extensions, the calculator, and
-- the windows.
pub mod Base
pub mod Core
pub mod Extensions
pub mod Protocol
pub mod Network
pub mod Platform
pub mod Storage
pub mod Sync
pub mod Ui
