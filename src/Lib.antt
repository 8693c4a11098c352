-- ===== src/Lib.antt =====
-- shoebox: a task queue in Go. A broker (internal/broker) takes payloads, drops duplicates by a
-- dedupe key, stores messages in a storage backend (internal/storage), hands due messages to the
-- handlers of their queues, and settles each of them by an acknowledgement, a retry after a backoff
-- (internal/retry) or a move to the dead-letter queue, which a manager (internal/dlq) lists and
-- replays. Queue names are checked by internal/naming.
--
-- Base: Boolean tests and lists on the native numbers, Go's 64-bit integers, byte strings, maps and
--   sets keyed by strings.
-- Storage: internal/storage/storage.go. Messages, schedules, statistics, the transitions that all
--   backends share (`dead_letter_message`, `replay_message`, `periodic_message`), and in
--   Storage/Interface the interface `Storage` as a record `Store` of operations on a state.
-- Memory: internal/storage/memory.go. One function for each method of `Memory`: enqueueing and
--   `dequeue` here, the sort of `Dequeue` in Memory/Sorting, settlement and inspection in
--   Memory/Settle, schedules in Memory/Periodic. Memory/Steps has the calls as a data type and
--   histories of calls; Memory/Backend fills the record `Store`. Proofs: Memory/Picking,
--   Memory/Delivery (what a dequeue returns), Memory/Pulling and Memory/Upkeep (the sort order over
--   a history), Memory/Custody (which identifiers a queue holds), Memory/Sorting/Laws.
-- Retry: internal/retry/backoff.go, with its arithmetic in Retry/Bounds.
-- Naming: internal/naming/queue.go, with a description of the names in Naming/Laws.
-- Dedupe: internal/broker/dedupe.go. Dedupe/Entries has the lemmas on entries, Dedupe/Window the TTL
--   store, Dedupe/Lru the bounded one.
-- Broker: internal/broker/broker.go, handler.go and middleware.go. Broker/Handling is `handleOne` and
--   the batching of acknowledgements, with proofs in Handling/Budget, Handling/Lives,
--   Handling/Batching and Handling/Flushing; Handling/Draining is `drainComplete`, Handling/Replaying
--   is about the replay of a message that was given up;
--   Broker/Enqueueing is `Enqueue` and `EnqueueBatch`, with proofs in Enqueueing/Duplicates;
--   Broker/Lifecycle is the dispatcher of one queue under `Register`, `Pause`, `Resume`, `Drain` and
--   `Shutdown` as steps on its flags, with proofs in Lifecycle/Drains, Lifecycle/Endings
--   and Lifecycle/Idling;
--   Broker/Cadence is `scheduleLoop`, with proofs in Cadence/Once.
-- Dlq: internal/dlq/dlq.go over any `Store`, and in Dlq/Journey over the memory backend.
-- Queue: shoebox.go and options.go, the public queue over the memory backend, with proofs in
--   Queue/Opening (the constructor), Queue/Building (its checks for every kind of storage) and
--   Queue/Periodic; task.go in Queue/Tasks, with the way of a task to its handler in
--   Queue/TaskJourney.
-- Sql: the tables of the SQL backends, the meaning of their statements on them, and transactions: a tree
--   of statements that is run under a list of faults. Sql/Atomic, Sql/Keys, Sql/Posts and Sql/Single
--   have what a transaction leaves, what it keeps, what it establishes, and the row that a key selects;
--   Sql/Jobs has the statements on the table of schedules, Sql/Claims the rows that a dequeue selects.
-- Sqlite: internal/storage/sqlite.go. The rows of messages, `enqueue` and `dequeue` here, settlement and
--   inspection in Sqlite/Settle, schedules in Sqlite/Schedules, NewSQLite in Sqlite/Opening; Sqlite/Calls
--   has the calls as a data type and histories of interrupted calls, with proofs in Calls/Keeping,
--   Calls/Distinct and Calls/Custody; further proofs in Sqlite/Claiming, Sqlite/Delivering, Sqlite/Journey and
--   Sqlite/Outcomes, and in Sqlite/Texts the order of times as texts;
--   Sqlite/Backend fills the record `Store`.
-- Postgres: internal/storage/postgres.go. The rows of messages, the index behind durable dedupe,
--   `enqueue` and `dequeue` here, settlement and inspection in Postgres/Settle, schedules in
--   Postgres/Schedules, the name of the schema in Postgres/Quoting, NewPostgres and the runner
--   initPostgresSchema in Postgres/Opening, with proofs in Opening/Leaving, Opening/Twice and
--   Opening/Reclaimed. Postgres/Calls has the calls as a data type and histories of interrupted
--   calls, with proofs in Calls/Keeping, Calls/Keys, Calls/Rows and Calls/Custody; Postgres/Unique
--   is about the index, Postgres/Claiming about the rows that a dequeue marks, Postgres/InFlight
--   about the key of a message in flight; Postgres/Running and Postgres/Outcomes are about calls
--   that nothing interrupts, and so is Postgres/Delivering; Postgres/Scanning has the wrapper of
--   a time that may be NULL, Postgres/Reading is about what is read. Postgres/Consumers has Dequeue
--   calls that overlap, as steps on the row locks, with proofs in Consumers/Waiting,
--   Consumers/Exclusive and Consumers/Alone.
-- Migrations: migrations/migrations.go, and in Migrations/Running the runner initSQLiteSchema of
--   internal/storage/sqlite.go, with proofs in Migrations/Resuming and Migrations/Reopening. Its
--   `Ending` tells a return from a wait for the only connection of the pool that never ends.
-- Api: internal/api/handler.go over any `Store`, and middleware.go in Api/Guards, with proofs in
--   Api/Behaviour.
-- Config: internal/config/config.go, with proofs in Config/Laws.
-- Webhook: webhook.go, with what the broker makes of its errors in Webhook/Verdicts. The library's part is a
--   record `Client`.
-- Dashboard: internal/dashboard/handler.go, the data of the pages over any `Store`, with lemmas in
--   Dashboard/Pages.
-- Daemon: cmd/shoeboxd/main.go, from the flags to the engine and the handlers of webhooks, and the
--   middleware around the endpoints, with proofs in Daemon/Starting.
-- Middleware: middleware.go, around handlers that may panic.
-- Tests: sample data, and applications of the theorems.
--
-- State is passed explicitly, and a mutex makes each method one transition. What the code reads of
-- the clock, of the random source and of the order of a map's walk is an argument. An instant is a
-- number of nanoseconds since Go's zero time; additions of instants do not overflow. A handler is a
-- function on the state of the storage and the message, with an error text or none.
--
-- Fuel: `advance` (Broker/Cadence) is given one more than the present instant, and each round of the
-- loop adds at least a nanosecond. `life` (Broker/Handling/Lives) is given one more than the limit
-- of retries. No other definition runs on fuel.
--
-- Parameters of the SQLite model (`Engine`): the format of times and of metadata and their parsers, and
-- the ORDER BY of a query. An instant carries no time zone, so that the format of a time is a function of
-- the instant. A query and the loop over its rows count as one statement. A primary key that is taken
-- and an interruption are the errors that the tables can report; the readers `list` and `stats` meet no
-- faults. The scripts of the migrations, and what the runner reads of a schema, are a record `Scripts`.
--
-- Parameters of the PostgreSQL model (`Engine`): the precision of a TIMESTAMPTZ, JSON both ways, what JSONB
-- makes of a text, and the ORDER BY of a query; 0 stands for a NULL time of death. The index of durable
-- dedupe is checked by insertions. An update never violates it: it revives no dead row. A Dequeue locks the
-- rows that its query returns until it ends; a session that would wait for a lock is not modelled.
-- The runner of migrations asks a record `Catalog`, and NewPostgres a function `connect`, for what the
-- database does before the schema is brought up to date.
--
-- Not modelled: metrics and tracing, which hand numbers to third-party libraries; the templates of the
-- dashboard; the server, the signals and the shutdown of the daemon.
-- Contexts, logging, routing, JSON and YAML, the goroutines of workers and the text that errors are
-- wrapped in are left out of what is modelled.
pub mod Base
pub mod Storage
pub mod Memory
pub mod Sql
pub mod Sqlite
pub mod Migrations
pub mod Api
pub mod Config
pub mod Webhook
pub mod Middleware
pub mod Retry
pub mod Naming
pub mod Dedupe
pub mod Broker
pub mod Dlq
pub mod Dashboard
pub mod Daemon
pub mod Postgres
pub mod Queue
pub mod Tests
