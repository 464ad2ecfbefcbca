-- ===== src/Lib.antt =====
-- TamarackDB: an event store with dynamic consistency boundaries and projections, on SQLite.
--
-- A request reads and writes events and projections in a transaction of the registry (internal/tx),
-- which buffers the writes. Its commit is one write of the writer (internal/writer), in its turn in
-- a line, and this write is one append of the store (internal/store): one SQLite transaction that
-- checks the conditions, writes the projections, and inserts the events under the next sequences. A
-- condition is a query (internal/dcb) and the position of the last event that its read could see.
--
-- The parts and their files:
--   Names               internal/names/names.go: valid_name is ValidName, valid_value ValidValue.
--   Dcb/Event           internal/dcb/event.go: events, their size and validation.
--   Dcb/Compact         internal/dcb/event.go: marshalCompact and unmarshalCompact, up to the text of JSON.
--   Dcb/Query           internal/dcb/query.go: queries, NewQuery, Matches, Validate.
--   Projection          internal/projection/projection.go: writes of projections and their validation.
--   Store/Tables        internal/store/schema.go, errors.go, sqlite.go: tables, errors, driver calls.
--   Store/Sql           internal/store/query.go: the WHERE clause of a query, and what it selects.
--   Store/Batch         internal/store/append.go: the multi-row inserts.
--   Store/Projections   internal/store/projection.go.
--   Store/Append        internal/store/append.go, import.go, and DeleteAllEvents of sqlite.go.
--   Store/Read          internal/store/read.go, pause.go, and what Open of sqlite.go reads.
--   Queue               internal/queue/queue.go, turn.go: the ticket line. Join is enter, then woken.
--   Writer              internal/writer/writer.go, stats.go: a turn, and the checkpoint after it.
--   Tx/State            internal/tx: the types.
--   Tx/Calls            internal/tx/tx.go: lock, Begin, do, acquire, release, end, Abandon, Reject.
--   Tx/Reads            internal/tx/tx.go: ReadEvents, WriteEvents.
--   Tx/Writes           internal/tx/projections.go: GetProjection, WriteProjections.
--   Tx/Commit           internal/tx/projections.go and tx.go: netProjections, conflict, Commit.
--   Tx/Pause            internal/tx/pause.go: Pause, Resume.
--   Config              internal/config/config.go: the settings and their defaults.
--   Config/Numbers      internal/config/config.go: the texts that Atoi, ParseBool and ParseUint read.
--   Config/Validate     internal/config/config.go: Validate, isLoopback, validSocketMode.
--   Config/Load         internal/config/config.go and file.go: Load, applyEnv, readTokenFile.
--   Config/Backup       internal/config/backup.go: the settings of the backup client.
--   Ndjson              internal/ndjson/encoder.go: AppendString.
--   Api                 internal/api: requests, errors, codes and answers.
--   Api/Answers         internal/api/errors.go and internal/store/errors.go: handleErr, IsFatal.
--   Api/Requests        internal/api/body.go, events.go, projection.go, tx.go: what is checked of a request.
--   Api/Setup           internal/api/router.go, auth.go, level.go, and the call of New in
--                       cmd/tamarackdb-server/main.go.
--   Api/Lines           internal/api/events.go and tx.go: writePage, writeTxEvents.
--   Api/Handlers        internal/api: the handlers.
-- Prelude has what the parts share: tests, lists, association lists, and actions on a state that may
-- fail. The other files prove: Rules describe validation independently; Dcb/Query has Sorting, Orders,
-- Keys and Dedupe; Store has Log (the log of events that the tables represent), Clauses and Selects
-- (queries against the log), Spec, Footprint, Counters and Atomic (what an action leaves unchanged),
-- Inserts, Chunks, Holds, Conditions, Appends and Refines; Writer has Turns; Tx has Net, Expiry,
-- Exclusion, Lives, Written, Marks, Bounds, Commits, Failures and Paused; Dcb/Compact has RoundTrip; Ndjson has Pieces, Reader,
-- Runes and ReadBack; Config has Rules, Settings and Choice; Api has Checks, Projections, Streams, Counts,
-- Refusals and Loaded.
-- In Store, Fresh, Progress, Succeeds and Accepts are about an append that nothing stands against.
-- Examples hold concrete runs.
--
-- The correspondence: a function takes the state and returns its result beside the state as it leaves
-- it, in the error case too. Strings are lists of bytes. A sequence or a time is a natural number;
-- the sequences, int64 in the code, are taken to stay below 2^63; the counters, uint64, wrap.
-- A nil slice or pointer is none. An error is a constructor without its message, and what would panic
-- (a nil dereference, an index out of range) is an error of its own. A Go map with a meaning is an
-- association list, or a list with a test for membership.
--
-- From outside: SQLite, as operations on the tables of the schema, where each driver call may fail with
-- the code that the schedule Env.fault names for its number, before it changes a table; a transaction
-- that does not commit restores the tables. UUIDs, clocks, the size of the WAL and whether a
-- checkpoint finds a reader are functions of the number of the call. What Join of the queue
-- returned is an argument of a turn: the line is modelled on its own, in Queue, and Queue/Line is about
-- any interleaving of its steps.
--
-- The registry is locked and unlocked several times within a call. Each critical section is a function
-- of its own, and a call composes them; Other (Tx/Exclusion) and Step (Tx/Paused) are the relations
-- of the steps that other calls may take between them. A call on a transaction is a function from the
-- transaction to what it leaves of it, since nothing else may use a busy transaction.
--
-- Fuel: batches takes the number of rows and AppendString the number of bytes, which is enough since each
-- round takes at least one. Other loops are recursion on lists.
--
-- The API stands over the registry, the writer and the store: a handler takes the bytes of a body with the
-- decoder of encoding/json as a parameter, checks what it decodes, makes its call, and returns an answer.
-- main loads the settings (Config), passes them to New as options, and New refuses what would not serve.
-- From outside as well: the decoded TOML file, the environment and the token files, the tables of Unicode
-- for text outside ASCII, the loopback test of an IP address, the parsing of a URL, and the digest of a token.
--
-- Not modelled: the line of an event but for its strings, internal/buildinfo, GET /health and GET /stats, the
-- access log, and the rest of cmd (input and output); the creation and migration of the database file and
-- its lock; the text of JSON, of TOML and of messages; cancellation of a context, but for the answer of an
-- error; panics, on which the code also releases a transaction and its sequences.
mod Prelude
pub mod Names
pub mod Dcb
pub mod Projection
pub mod Store
pub mod Config
pub mod Ndjson
pub mod Queue
pub mod Writer
pub mod Tx
pub mod Api
