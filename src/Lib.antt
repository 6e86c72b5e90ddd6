-- ===== src/Lib.antt =====
-- go-contactd, a CardDAV server over SQLite: its store, its collection sync, its backend,
-- its HTTP handler and its control commands.
--
-- The HTTP handler (internal/server) authenticates a request, and calls the backend
-- (internal/carddav/backend.go) for cards and address books and the sync service
-- (internal/carddavx/sync.go) for sync-collection reports. Both stand on the store
-- (internal/db/store.go), which logs each write of a card under a new revision of its book; the sync
-- service answers a token from that log, in pages, and keeps the rest of a cut page in a cache of
-- cursors. The prune loop of the daemon (internal/daemon) removes old changes from the log.
--
-- * Store (Store/...) is internal/db/store.go. Tables has the schema's rows, Exec the statements on a
--   connection and withImmediateTx, Statements the SQL of the writes, Cards putCard, putCardConn,
--   deleteCard and their callers, Changes the log's queries and prunes, Books and Users the other
--   tables, Vcard the canonical text and the ETag. Names are the Go names in snake case.
--   An operation is a function `Conn → Result A × Conn`. A connection has the tables, its
--   foreign_keys pragma and a schedule of driver errors: each statement may fail, BEGIN and COMMIT
--   too; ROLLBACK is taken to succeed. A transaction holds the write lock, so it sees one state of
--   the tables from BEGIN to COMMIT.
-- * Sync (Sync/...) is internal/carddavx/sync.go. Token is the token's text, Pages the result of
--   one page, Cursors the cache, Service SyncCollection and CollectionState. Pages/Client has the
--   client that applies a result, Cursors/Follow one that follows the tokens of cut pages, History
--   the log as seen from a token, with the steps of the store.
-- * Carddav (Carddav/...) is internal/carddav/backend.go: paths, address books, and in Objects the
--   cards. What other requests commit between the read and the write of a conditional put is a
--   function on the tables, the parameter `meanwhile`.
-- * Davxml is internal/davxml/types.go, the documents that the handler marshals.
-- * Handler (Handler/...) is internal/server/handler.go. Tokens is the stream of tokens that the XML
--   decoder hands over, Requests the four parsers of bodies, Http the requests, the responses and the
--   options, Propfind, Collections, Reports and CardRequests the handlers by method, Serve ServeHTTP
--   with the login. A handler is a function of the state (connection and cursor cache) that returns a
--   value or stops with a response; serve_http ends in a response and a state.
-- * Daemon is the start-up of internal/daemon/daemon.go, with the seed list of
--   internal/config/config.go; Daemon/Server is the handler that it serves, with the login over the
--   store, and what holds of every request to it.
-- * Ctl (Ctl/...) is internal/ctl/ctl.go: the user commands, in Export and Import those with these
--   names. A command is a function of the connection that returns an exit code and the text on
--   stdout; Import/DryRun, Import/Batch and Import/Counts are about
--   --dry-run.
-- * Strings is what these use of Go's packages strings, strconv and path; Prelude has the shared
--   helpers. Tests runs the model on concrete tables.
--
-- Bytes are natural numbers, texts lists of bytes, and times ticks of a clock that is passed in. Ids
-- and revisions are natural numbers: SQLite counts them up from 0, and a revision does not reach
-- 2^63; where a token's text is read as int64 that bound is a hypothesis. Limits and `keep` are not
-- negative: the code treats a negative one as 0. A Go map is an association list. The loop that
-- evicts cursors runs on as many rounds as there are cursors, since each deletes one. The digits of a
-- number run on one round more than its value.
--
-- SHA-256, bcrypt's comparison and check of a hash, the codec of package vcard, webdav's conditions,
-- carddav's filter, and the functions of net/url, mime and encoding/xml that the handler calls are
-- parameters: `Codec` and the record `Env` name them. A loop over XML tokens is a fold over their
-- list; Skip and DecodeElement are what package encoding/xml documents of them. An error of the store
-- is a unique violation where the code looks for "unique" in the driver's message. The age that a
-- prune round computes from the calendar is a parameter too.
--
-- An operation that is no transaction reads the tables more than once, and other requests may write
-- in between. Only the conditional put models this, by `meanwhile`. The others read in one state: the
-- book and its changes in SyncCollection, the book and its states in CollectionState, the address
-- books and their cards in the handlers. A put or a deletion takes one reading of the clock; the cards
-- of a batch take one each.
--
-- Not modelled: the access log, the servers, signals and the ticker of the daemon, which are I/O;
-- flags, environment and the dispatch and help texts of the control commands, which are left to
-- later modules; opening, migrating and closing the database; the handler's branches for a backend
-- other than this repository's.
pub mod Prelude
pub mod Strings
pub mod Store
pub mod Sync
pub mod Carddav
mod Tests
pub mod Handler
pub mod Daemon
pub mod Davxml
pub mod Ctl
