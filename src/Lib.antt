-- ===== src/Lib.antt =====
-- tickr, a task queue for Go on SQL databases: a model of its core and the theorems on it.
--
-- A client enqueues messages into a storage; the engine of each worker claims them in batches,
-- runs the handlers registered for their types and acknowledges each attempt; janitor loops
-- reclaim expired leases and purge. The storage adapter keeps two tables, the messages and their
-- history. The correctness of the whole rests on the SQL statements of the adapter, so that the
-- Postgres adapter is modelled down to its statements.
--
-- Parts and files (paths from the repository's root):
-- - message.go, storage.go, notifier.go, observe.go: Message.antt and Storage.antt, the data types
--   and the interface between the engine and an adapter.
-- - errors.go: Errors.antt. `Err` is a tree of the wrappers that errors.As and errors.Is search;
--   the texts are built by parameters (`Format`).
-- - retry.go: Retry.antt (`next_delay` is ExponentialBackoff.NextDelay). float64 is a parameter,
--   with the conversion of large products as a named hypothesis (`ConvertsProducts`).
-- - registry.go, handler.go: Registry.antt. The mutex makes each method one step. `on`,
--   `on_batch`, `register`, `lookup` and `event_types` have the names of their methods; the text of
--   register's error leaves out the event type.
-- - engine.go: Engine.antt, what an attempt's return value comes to (`resolve_outcome`) and what is
--   committed for it (`commit_outcome`); Engine/Batch.antt, the batch handler's turn
--   (`run_batch_handler`); Engine/Flusher.antt, ackFlusher on the sequence of posted completions and
--   ticks; Engine/Dispatch.antt, pollOnce with the jobs that it dispatches, and the waits of run;
--   Engine/Leases.antt, the loops that extend leases, on the ticks of their timers; Engine/Slots.antt,
--   the semaphores of the pool and of each type, as steps of the goroutines in any order. The storage adapter is a parameter; Postgres/Adapter.antt is the instance.
-- - handler_typed.go: Handlers/Typed.antt, over a parameter for encoding/json.
-- - handlers/http/handler.go and handlers/grpc/handler.go: Handlers/Http.antt and Handlers/Grpc.antt,
--   over parameters for the transports, the parsing of numbers and dates, and gRPC's statuses. What a
--   handler's error comes to in the engine is Handlers/Fate.antt.
-- - client.go: Client.antt, the producer's Enqueue and EnqueueBatch over a storage.
-- - worker.go: Worker.antt, one turn of the reclaimer (`try_reclaim`) and of the janitor (`try_purge`).
-- - storage/postgres/migrations/0001_init.sql and storage/postgres/postgres.go: Postgres.antt and
--   its children. Table.antt has the rows and the clauses of SQL, Statements.antt and its children
--   one function for each SQL constant (enqueueSQL is `enqueue_sql`), Session.antt the round trips,
--   and Enqueue.antt, EnqueueBatch.antt, Claim.antt, Ack.antt, Admin.antt the methods of Store.
--   Calls.antt is the list of calls that a process may make, `perform` does one of them.
-- - storage/mysql/mysql.go: Mysql.antt and its children, on the same tables and session. The texts
--   of the ids stand for numbers (`Ids`). The `=` of the
--   tables' collation on the other texts is a parameter (`same_text`), since 0001_init.sql of the MySQL
--   store names none and the default of MySQL 8 does not tell upper from lower case.
--   `transaction` is BeginTx, the statements, and Commit or the
--   deferred Rollback; Statements.antt has the statements, and Enqueue.antt, Claim.antt, Ack.antt and
--   Admin.antt the methods of Store. The transaction that a caller gives Enqueue is not modelled:
--   there each statement is one round trip, as without it.
-- - storage/cockroach/cockroach.go: Cockroach.antt, the leader lock in a table of its own, on a list of
--   events of the workers. The other methods are those of the Postgres store.
--
-- A statement is one atomic step on the tables, as under the row locks (FOR UPDATE SKIP LOCKED)
-- and the unique indexes of the database, and a method is the sequence of its round trips. A round
-- trip may be made, may fail before its statement, or may lose the answer after it (`Wire`); the
-- outcomes, the random shards and the new ids are lists that the session reads (`Session`). Calls
-- of several processes are interleaved by the call, not inside one method. Times are nanoseconds
-- since Go's zero time, where the stores keep microseconds, and the clocks of a worker and of the
-- database are one clock; numbers of a uuid stand for the uuid. An INSERT into tickr_history does
-- not look for a taken primary key; the invariant `Inv` speaks of these keys. A partitioned table's
-- primary key has created_at besides the id; the model keys it by id.
--
-- The loop of dispatchBatches (`chunk_loop`) has the number of messages for its fuel, which is
-- enough since each chunk takes at least one. A purge in rounds (`purge_rounds`) recurses on
-- the number of waits that it can make before its context ends. Every other loop recurses over its
-- input.
--
-- Not modelled: logging, tracing, metrics exporters and the codec packages (glue around other
-- libraries), the CLI, the examples, the storage test suite, migrations,
-- partition upkeep, LISTEN connections, Stats, the leader locks of the Postgres and MySQL adapters, the tickers of the
-- worker's loops, and in the engine drain's timer.
pub mod Prelude
pub mod Errors
pub mod Message
pub mod Retry
pub mod Registry
pub mod Storage
pub mod Engine
pub mod Mysql
pub mod Cockroach
pub mod Postgres
pub mod Client
pub mod Handlers
pub mod Worker
pub mod Examples
