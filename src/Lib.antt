-- ===== src/Lib.antt =====
-- Duckgres is a PostgreSQL server in front of DuckDB: a control plane admits connections and gives
-- each session a worker, and the server speaks the PostgreSQL wire protocol and reads SQL text to
-- decide how to run it. This library models parts of it. Paths are from the repository's root.
--
-- A connection first sends a startup message (Wire) with options (Startup), and its attempt to log in passes the limits on
-- addresses and the check of a password (Auth). The control plane then admits the session when a
-- slot is free, of its own or of the cluster (Lease), and enters it in its tables (Session) beside the worker that serves it (Worker).
-- Each query's text is classified (Sql) before it runs, what runs may be tried again (Retry), and
-- the answers go out as messages (Wire). What DuckDB reads from object storage passes a proxy with a
-- cache on disk (Cache).
--
-- Base: helpers. Go maps are association lists (Base/Dict), byte slices and strings lists of bytes
--   (Base/Lists), Go's outcomes a value, an error or a panic (Base/Results); integers and texts are
--   in Base/Int and Base/Text.
-- Wire: server/wire/protocol.go. Wire/Read and Wire/Startup read messages (ReadMessage,
--   ReadStartupMessage), Wire/Write writes them (WriteMessage and each message writer). A reader is
--   the bytes that it will give, a writer those written. Wire/Framing, Wire/Params and Wire/Replies
--   hold the proofs. The loop over the startup parameters runs on the length of the message.
-- Sql: server/conn.go from stripLeadingNoise to getCommandType, and server/sqlcore/query.go, on
--   ASCII text. Sql/Cursor has the scanning loops (scanForReturning, skipBalancedParens,
--   skipWhitespaceAndComments), Sql/Cte the definitions of a WITH clause (outerStatementOfCTE),
--   Sql/Classify the tests on whole queries. The loops of scanForReturning, skipBalancedParens and
--   skipWhitespaceAndComments that advance in two places run on fuel, one more than the text that
--   is left; each round takes a byte at least, so the fuel is enough. Sql/Tokens describes texts by
--   lexical elements, and says when they fit: a literal right behind a byte E, which the code takes
--   for that of an E-string, does not unless it is one. Sql/Progress, Sql/Rounds, Sql/Scans, Sql/Skips,
--   Sql/Outer, Sql/Total, Sql/Strips and Sql/Returns hold the proofs, Sql/Runs runs on single texts.
-- Session: controlplane/session_mgr.go and controlplane/session_lifecycle.go. Session/Slots has
--   the admission of sessions without a cluster-wide limiter (acquireConnectionSlot,
--   grantWaitersLocked and what changes slots or waiters; Session/Queue, Session/Histories and
--   Session/Shutdown hold the proofs), Session/Tables the tables of sessions
--   (createSessionOnWorker, detachSessionLocked; Session/Registry holds the proofs). What runs under
--   the manager's lock is one step; Session/Histories has the sequences of such steps.
-- Worker: controlplane/worker_state.go. Worker/Lifecycle has the states and the changes allowed,
--   Worker/Transition the function Transition, Worker/Reach chains of transitions.
-- Auth: server/auth/ratelimit.go in Auth/Limiter and the password check of server/auth/policy.go
--   in Auth/Password, BeginRateLimitedAuthAttempt in Auth/Attempt. Times are numbers of nanoseconds
--   that the caller gives, and durations are not negative. Auth/Reached has the histories of the
--   limiter's operations; Auth/Counts, Auth/Steps, Auth/Records, Auth/Answers, Auth/Distinct,
--   Auth/Lasting, Auth/Since, Auth/Bans and Auth/Cleanup hold the other proofs.
-- Retry: server/transient.go in Retry/Loops, with the tests on error texts of server/server.go and
--   server/conn.go; Retry/Bounds holds the proofs. The function tried is a stream of outcomes. The
--   loops count attempts, so they need no fuel.
-- Lease: controlplane/configstore/org_connections.go in Lease/Store (the tables and the statements),
--   Lease/Acquire (TryAcquireOrgConnectionLease) and Lease/Requests (the other operations), and
--   controlplane/connection_limiter.go in Lease/Limiter over
--   an interface of the store. A table is the list of its rows (Base/Rows), a transaction leaves what
--   was there when a statement fails; what other control planes commit before the advisory lock is
--   a function on the tables. The loop of TryAcquireOrgConnectionLease and that of Acquire run on
--   fuel: one round more than the first in which nobody moves the request to another org (Lease/Rounds),
--   and one more than the poll intervals in the time to live (Lease/Waits). Lease/Effects, Lease/Outcome, Lease/Bounds,
--   Lease/Fifo, Lease/Timeline, Lease/Line and Lease/Refines hold the other proofs.
-- Startup: server/startup_options.go in Startup/Options, on ASCII texts; Startup/Rendered and
--   Startup/Literal hold the proofs.
-- Cache: the DiskCache of cmd/cache-proxy/cache.go in Cache/Disk. The loop of Put runs on fuel, as
--   much as there are entries. Cache/Counted, Cache/Steps, Cache/Puts and Cache/Again hold the proofs.
-- Codec: the binary form of numerics in server/types.go, Codec/Numeric (encodeNumeric from its
--   unscaled value on), Codec/Inputs (the values it takes) and Codec/Decode (decodeNumeric). The loop
--   over the digits of a number runs on the number as fuel: it has fewer digits. Codec/Digits,
--   Codec/Powers, Codec/Words, Codec/Buffer, Codec/RoundTrip, Codec/Texts and Codec/TextRoundTrip hold
--   the proofs.
--
-- Given as parameters: the redaction of messages, the split of a host from a port, the comparison
-- in constant time, the random jitter, the text order of the database, the statements that fail, the
-- clock, sort.Slice on the cache's entries for any less function, the writes and removals of files that fail.
-- Not modelled: the handlers of connections and queries, the transpiler (it works on the trees of
-- an external parser), DuckDB and Arrow, the Kubernetes pool and the other tables of the
-- configuration store, the requests of the cache proxy, configuration, catalogs, metrics and logs; the
-- session manager's use of the cluster-wide limiter and the crash of a worker in it.
mod Base
pub mod Wire
pub mod Sql
pub mod Session
pub mod Worker
pub mod Auth
pub mod Retry
pub mod Lease
pub mod Startup
pub mod Cache
pub mod Codec
