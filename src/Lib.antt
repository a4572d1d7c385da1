-- ===== src/Lib.antt =====
-- getitdone is a task queue on one MongoDB collection. A caller upserts a task document and waits for its
-- outcome; workers claim pending tasks with atomic writes, run a handler, keep the claim alive by
-- heartbeats, and recover the tasks of workers that are gone.
--
-- The parts, and where they are modelled:
--   src/config.rs         Config: the configuration and its builder.
--   src/error.rs          Errors: the error type, its messages, and results.
--   src/worker/expiry.rs  Expiry: `ExpiryTracker` with every method. Expiry/Index, Expiry/Due and
--                         Expiry/PopDue are about its two maps. Expiry/Documents: what task documents
--                         and change events do to it.
--                         Expiry/Refresh: the two scans that rebuild it.
--   src/worker.rs         Worker/Claim: the claims (`claim_next_task`, `claim_expired_task_by_id`).
--                         Worker/Lease: the writes of a claim (`heartbeat`, `mark_task_failed`, the
--                         completion). Worker/InFlight: `InFlightRegistry`. Worker/Pump:
--                         `pump_available_tasks`, `pump_expired_tasks`, `spawn_claimed_task`.
--                         Worker/Task: `process_task` and `start_heartbeat_loop`.
--                         Worker/ChangeStream: `open_change_stream` and the pipeline that it sends.
--                         Worker/Loop: `worker_loop` as a step relation, from its spawn on, with the
--                         claims inside which it waits, and `WorkerStats`. Worker/Loop/Aborted: the
--                         jobs that are left when the loop is dropped.
--                         Worker/Handle: `Worker` and `WorkerHandle`. Worker/Shutdown: how the loop
--                         ends.
--   src/caller.rs         Caller: `upsert_task`, `SendBuilder`. Caller/Waiting: `evaluate_document`,
--                         `inspect_task`, `wait_for_result`. Caller/Duplicates, Caller/Resets,
--                         Caller/Queued and Caller/Enqueued: what an enqueue does to the tasks that
--                         are there, and the task that it makes.
--   src/storage.rs        Storage: `connect_collection` and the warnings about indexes.
--   src/trace.rs          Trace: `TraceContext`.
--   src/pool_metrics.rs   Pool: the two counters of the connection pool.
-- Callers and workers meet in the collection only. System has each of their writes as one operation, in
-- any order, and the life of a task as an abstract machine.
-- The collection is explicit state: an operation takes the database and returns its result with the
-- database it leaves. The clock and the new UUID are arguments. Durations are numbers of nanoseconds,
-- instants are milliseconds as integers, and the casts to `i64` and `u64` are written out (Time).
--
-- Where the code awaits, an argument says what happens meanwhile: an `Await` holds the jobs of the process
-- that end, what other processes write before a claim, and what they write behind each of its calls; a
-- `Moment` of a task holds what others write before it. The loop of
-- `pump_available_tasks` runs on the list of its awaits, and ends within one for each permit and each job
-- that ends. All other loops run over the list that they are given: the tasks that are due, the results of
-- a cursor, the ticks of the heartbeats, the events of a stream.
--
-- The crates are parameters. Bson/Crate is the part of `bson` that the code uses, with the laws of
-- ordered documents; Mongo/Server, with Mongo/Updates, is the part of the MongoDB server and driver, where
-- single-document writes are atomic, with the laws of filters, pipelines and updates that are documented;
-- Storage has the calls that connect, and Trace the part of `opentelemetry`. Bson/Memory, Mongo/Memory and
-- Trace/Memory are concrete values, on which the runs of Tests are computed.
--
-- Logs, spans and metrics are left out of the operations: they do not change what is returned or stored.
-- The trace context is kept; without the feature `tracing` it is always `none`. Only the instruments of
-- src/metrics.rs and the registration of the gauges in src/pool_metrics.rs are not modelled.
pub mod Prelude
pub mod Time
pub mod Errors
pub mod Config
pub mod Bson
pub mod Mongo
pub mod Expiry
pub mod Worker
pub mod Caller
pub mod Storage
pub mod Trace
pub mod Pool
pub mod System
pub mod Tests
