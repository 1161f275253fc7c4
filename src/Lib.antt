-- ===== src/Lib.antt =====
-- Tekrion records the exchanges between an agent and a model's service, and what it can tell of them.
-- This library models parts of its daemon, its normalizers, its storage, its context reconstruction
-- and its viewer.
--
-- How the parts interact: the proxy captures the bytes of the two bodies of an exchange
-- (Capture), records when each chunk came (Manifest) and selects the headers to forward and to
-- persist (Headers). The sessionizer decides to which session the exchange belongs (Sessionizer).
-- A normalizer decodes the response's event stream (Sse) and makes events of it, which
-- the normalization runner stores (Normalizers). The repositories store sessions, exchanges and
-- events in one database (Storage). A client gets the events of a session as a stream (Query), which the
-- viewer merges into its timeline (Viewer), and what a request rested on is found again from them
-- (Context).
-- A file says which daemon uses a data directory (Lifecycle).
--
-- Files and code:
--   Prelude, Prelude/*: Boolean tests and lists by native numbers, JavaScript strings as lists of
--     UTF-16 code units, JavaScript maps in insertion order, calls that return or throw.
--   Protocol, Protocol/Equality: the records of packages/protocol/src (common.ts, event.ts,
--     session.ts, raw-exchange.ts) as values that the schemas accepted.
--   Capture, Capture/*: apps/daemon/src/proxy/capture.ts. `CaptureMemoryBudget` and
--     `BoundedByteCapture` are records of the class's fields; `claim`, `release_bytes`, `append`,
--     `bytes` and `release` are its methods, the shared budget being passed along.
--   Headers, Headers/*: apps/daemon/src/proxy/headers.ts with `SafeHeadersSchema` of
--     packages/protocol/src/raw-exchange.ts. The loops over the entries are `forward_entries` and
--     `persist_entries`, their conditions `drops` and `withholds`; Headers/Names lists the names that
--     have to be kept back without the lists of the code.
--   Manifest, Manifest/*: packages/storage/src/chunk-manifest.ts. `append` and `build` are methods of
--     `ChunkManifestBuilder`, `manifest_issues` the refinement of `ChunkManifestSchema`.
--   Sse, Sse/*: packages/normalizers/src/sse.ts. Sse/Lines cuts the text into lines, Sse/Frame makes
--     frames of them, Sse/Drain is `drainLines`, Sse/Chunks is `push`, `finish` and
--     `decodeSseChunks`.
--   Normalizers, Normalizers/*: packages/normalizers/src (contracts.ts, events.ts, diagnostics.ts,
--     duplicates.ts, registry.ts) and apps/daemon/src/normalization/normalization-runner.ts. The
--     runner's calls take the database and give it back also when they throw (`Stateful`);
--     `normalize_exchange` reads, then `with_existing` finds the numbers of the events, `persist`
--     is the `try`, `caught` the `catch`.
--   Context, Context/*: packages/context/src/reconstructor.ts. `load_turn` is `loadTurn`, `follow` the
--     `while` loop of `resolveResponsesAncestry` and `visit` a round of it, `reconstruct` the call up to
--     the completeness of its result.
--   Lifecycle, Lifecycle/*: apps/daemon/src/lifecycle/daemon-lock.ts, as one process sees it. `acquire` is
--     `DaemonLock.acquire` once it has the guard, `attempts` its loop, over the answers that each
--     attempt's file operations get; `update` and `releases` are the two methods.
--   Viewer, Viewer/*: `mergeTimelineEvents` of apps/viewer/src/timeline.ts.
--   Query, Query/*: apps/daemon/src/query/live-event-stream.ts. `event_frame` writes an event,
--     `stream` is the loop of `LiveEventStreamer`, over the polls that come before the client goes away.
--   Sessionizer, Sessionizer/*: apps/daemon/src/sessionization/sessionizer.ts. Every method is a
--     function from the state to the state and a result.
--   Storage, Storage/*: packages/storage/src. `Database` holds the rows of the tables.
--     Storage/Sessions is session-repository.ts, Storage/Events and Storage/Normalizations are event-repository.ts,
--     Storage/Exchanges is raw-exchange-repository.ts; each SQL statement is written out as what it
--     does to the rows, with the keys, references and triggers of migrations.ts. Storage/Histories
--     performs calls one after the other, Storage/Changes takes a call apart into its changes of the
--     tables, and the other files are about histories of calls.
--
-- Bounds and fuel: numbers are natural numbers without a bound, where the code has non-negative
-- integers. The loop that cuts lines runs on fuel, the length of the buffer and one more, which is
-- enough since every round takes at least one code unit from it. The loop over
-- the chain of responses runs on one more than the maximum depth, which is enough since every round
-- goes one deeper, and the digits of a number on one more than the number. Nothing else needs fuel.
--
-- Parameters stand for what is not code of the repository: the decoder of UTF-8, digests, random
-- identifiers, the lower case of a string, the collation and `LIKE` of the database, the
-- text of a cursor, JSON values and their text. The values in an event stand as texts, in which -0 is
-- not 0; what is left of one when its JSON is written and read, and whether `isDeepStrictEqual` holds of
-- two, are the parameters `JsonValues` of the storage. The normalizers of the single protocols are not
-- modelled and stand as parameters too.
--
-- Not modelled: the items of a reconstructed context, how the guard of the daemon's lock is got,
-- commands, the viewer's pages, the archive, the query service, the adapters, the blob store's files,
-- the runner of migrations, the proxy's sockets, the tables of file changes, context edges, analysis
-- runs and redactions, and the full-text search. They are input and output, or work on what the
-- parts above have stored. That at most one process has the daemon's lock is not claimed either.
-- The rejections of a schema are modelled only where a file says so.
pub mod Prelude
pub mod Protocol
pub mod Capture
pub mod Headers
pub mod Lifecycle
pub mod Manifest
pub mod Sse
pub mod Sessionizer
pub mod Storage
pub mod Normalizers
pub mod Context
pub mod Query
pub mod Viewer
