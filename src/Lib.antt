-- ===== src/Lib.antt =====
-- opfs-webauthn: a local-first store of end-to-end encrypted notes. The browser keeps one SQLite
-- database per origin in the origin's private file system, and one worker may have it open. This
-- library models the TypeScript code that decides who that is and how every tab reaches it.
--
-- A page asks for work with a request (packages/storage/src/rpc.ts) over a transport that has the
-- shape of a worker. The transport of packages/storage/src/leader.ts elects, by the exclusive lock
-- `opfs-db-writer`, one tab that hosts the worker; the other tabs reach it over one broadcast
-- channel each, found by messages on a discovery channel.
--
-- Modules, and the code that they model:
--   Prelude, Map           strings as UTF-16 code units, JavaScript's `Map` in insertion order
--   Rpc/Protocol           packages/storage/src/rpc.ts, row.ts: requests, responses, envelopes
--   Rpc/Client             rpc.ts, class WorkerClient
--   Leader/Wire            leader.ts: discovery messages, channel names, the effects of a tab
--   Leader/Bridge          leader.ts, class LeaderBridge
--   Leader/Registry        leader.ts, `bridges` of a leader and the traffic over them
--   Leader/Tab             leader.ts, `createLeaderTransport`: State, Pairing, Leading and Events have
--                          its closures, one definition for each
--   Leader/System          the tabs of an origin over `navigator.locks`
--
--   Share                  packages/share-client: codecs, HTTP transport, `pollAndDecrypt`, `sendShare`;
--                          apps/web/src/share/format-code.ts
--   Vault                  apps/web/src/app/idle-lock-coordinator.ts, alone and over several tabs
--   Notes                  packages/storage/src/note-repository.ts over the rows of its table (Cursor,
--                          Order, Table), worker-handlers.ts and connection.ts (Worker), and
--                          packages/state/src/notes-store.ts (Loading, Store)
--   Repo                   packages/storage/src/repo.ts and row-codec.ts
--   Migrations             packages/storage/src/migrations.ts
--   Auth                   packages/auth: codec.ts (Codec), credential-store.ts (Store), ceremony.ts (Ceremony)
--   Screen                 apps/web/src/app/auth-screen.tsx
--   Markdown               apps/web/src/notes/markdown.tsx: links, the plain text of a note and its cache
--   Dialog                 apps/web/src/share: note-codec.ts, receive-dialog.tsx with `prepareReceive`, send-dialog.tsx (Submit)
--   Editor                 apps/web/src/notes: note-editor.tsx (Guard, Drafts), notes-shell.tsx (Search, Shell)
--   Opening                apps/web/src/notes/use-notes-repo.ts
--   Boot                   packages/storage/src/index.ts: createRepo's choice of a transport
--   Worker                 apps/web/public/sw.js: the service worker that keeps the application's shell
--
-- How code becomes definitions. A closure or a method that changes state is a function from the state
-- to the new state and the list of its effects in the order in which the code has them: messages
-- posted, channels and workers opened and closed, promises settled, calls of the lock manager. What the
-- surroundings do (a message arrives, a timer fires, a lock is granted, a worker fails, a page calls
-- a method) is a constructor of `Event`, and `step` is the reaction; any event may follow any other,
-- so a theorem on `run` is about every interleaving of the callbacks, which JavaScript runs one at a
-- time. A listener is deaf once the code has removed it. Clock readings and fresh leader and client
-- ids are arguments of the events that use them. All loops of the code run over a list that is there
-- when they start, and are structural recursion: there is no fuel.
--
-- `navigator.locks` is a parameter (LockManager): its laws say that an exclusive lock has one holder,
-- that it is granted when it is free to a queued request, and that a tab's calls take the lock from no
-- other tab. Leader/System/Tests has a first-come first-served instance.
--
-- The share flow takes the answers of the server and the functions of the wasm core (verifyCode,
-- sealShare, openShare) as parameters; `Result` has a constructor for a typed ShareError and one for any
-- other exception. The recipient's poll runs over a list of rounds, which stands for the time that
-- passes, the first of them at the start; Share/Receive shows how many rounds are enough. The channel of the vault delivers at once.
--
-- The SQL statements of the note repository are functions on a list of rows, with SQLite's comparison of
-- BLOBs; the codec of row ids in the wasm core is a parameter (RowIdCodec). `loadAllNotes` has the
-- code's own bound of 200 pages as its fuel.
--
-- The vault that seals a note, `aadFor` and the UTF-8 codecs are parameters (Vault), with laws (VaultLaws):
-- a ciphertext opens under the associated data that it was made with. That it opens under no other, as an
-- ideal, and the format of these data in the core, are laws of their own (PlaceLaws).
--
-- The calls that the credential store makes of the origin's file system, and JSON, are parameters (Opfs) with
-- laws (OpfsLaws): a new file is empty, and what a stream is given is in the file once it is closed
-- without an exception. So are the authenticator and the core's functions (Platform, PlatformLaws).
-- Auth/Tests and Auth/Disk have instances. On the authentication screen a handler runs on the state that
-- was shown last, as React does for clicks.
--
-- The dialogs of a shared note take JSON and UTF-8 as parameters (Wire, WireLaws). A handler of the sending
-- dialog and of the editor runs on what was rendered last, which may be older than the state, and a call
-- is settled only after the page was rendered. In the view of the notes (Editor/Shell) dialogs are modal:
-- while one is shown, nothing else is clicked.
--
-- The service worker's caches are maps from URLs to responses. What the network answers, whether a cache
-- takes an entry, how a relative URL is resolved, the origin and the path of a
-- URL, and the manifest that the build writes are parameters;
-- `addAll` keeps nothing unless every URL has a good answer. A request matches by its URL alone.
--
-- SQLite is a parameter of the migrations (Sqlite), with what they rely on of its transactions as laws:
-- a write in a transaction saves nothing, a commit that does not throw saves all, and after a rollback
-- no transaction is open. Migrations/Tests has an instance. The two queries of the installed version and
-- the freeing of a migration are taken not to throw.
--
-- Not modelled: what a browser does on its own (a tab that crashes, a message that the page never
-- gets), exceptions of `BroadcastChannel` methods that the code swallows, an exception while a new leader makes
-- its writer or its channels, and the listeners' own code.
-- The Rust crates and the share backend are in another language; the React components render.
pub mod Prelude
pub mod Map
pub mod Markdown
pub mod Dialog
pub mod Editor
pub mod Opening
pub mod Rpc
pub mod Leader
pub mod Share
pub mod Vault
pub mod Notes
pub mod Repo
pub mod Migrations
pub mod Boot
pub mod Auth
pub mod Screen
pub mod Worker
