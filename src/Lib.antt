-- ===== src/Lib.antt =====
-- The control plane of XINGESTIONV2: the ledger of tasks in PostgreSQL, its outbox to Redis
-- Streams, the leases of workers, retries, dead letters and their replay.
--
-- A client creates a task with an outbox row (xingestion/control_plane.py, TaskRepository). A
-- dispatcher claims outbox rows and sends them to Redis (xingestion/outbox.py). A worker that
-- receives a delivery leases the task, renews the lease while it works
-- (xingestion/lease_guard.py), and completes, retries or dead-letters the task. Dead letters are
-- replayed as new tasks (xingestion/replay.py), and a daemon removes completed ones
-- (db_cleanup.py). The worker takes its sessions from a pool, which token_refresh_service.py
-- repairs; it stores the documents that a task collects, with hourly rollups of their keywords
-- (analytics_parser.py), and analytics_alerts.py raises alerts on the rollups.
--
-- How the files correspond to the code:
--   Schema       the tables of schema_analytics.sql with the migrations, a record for a row
--   Table        the SQL statements over a table, as functions on a list of rows
--   Tasks        TaskRepository; Tasks/Inserts has the INSERT statements that several methods share
--   Guard        TaskLeaseGuard: renew_once, release_for_recovery and the constructor
--   Outbox       DurableOutboxDispatcher
--   LegacyOutbox OutboxDispatcher, the dispatcher of control_plane.py before the durable one
--   Replay       DeadLetterReplayService
--   ReplayTool   task_replay.py: the arguments of the replay
--   Config       xingestion/config.py
--   Cleanup      the DELETE of tasks of db_cleanup.py
--   Tokens       TokenRepository; Tokens/Capacity and Tokens/Reach are about max_concurrency
--   Capabilities xingestion/capabilities.py: contracts, requests, routes; Values has Python's
--                operations on JSON, Validate the validation, Planner the choice of a route, and
--                FromTask the requests of tasks, and Payload their way back
--   Worker       worker.py: Session has the calls of an adapter, Pages the loop of collect,
--                Delivery handle_delivery and transition_failure, and Guarded run_guarded of
--                TaskLeaseGuard as a function of the order of events, Loop worker_loop, Execute
--                the result of the leased work; the others are about them
--   Analytics    analytics_parser.py and the analytics tables, persist_documents of worker.py (Persist)
--                and the retention of db_cleanup.py (Retention); the others are about them
--   Alerts       the detection of spikes of analytics_alerts.py
--   Queue        RedisStreamQueue, and the fields of an entry of the stream
--   TokenRefresh token_refresh_service.py
--   Results      statements about calls that may raise
--   Ledger       what a well-formed ledger is, and for each transaction that it stays so
--   System       the transactions of all processes as a step relation; Lifecycle is the life cycle
--                of a task and Rows the WHERE and SET clauses as its transitions, Exclusion and
--                Fence are about leases, Fence/Columns and Fence/Ends about their ends, Live is
--                about waiting tasks and Over about deliveries that are over
--   Tests        the theorems at concrete ledgers
--
-- A method that runs in one transaction, or is one statement, is one function from the ledger to
-- its result and the ledger after it. A statement's WHERE clause is a test on a row and its SET
-- clause a function on a row. Processes interleave by whole transactions: the statements lock the
-- rows that they change, and the rows that SKIP LOCKED passes over are an argument of the calls.
-- NOW() and the clock of a process are separate arguments, in microseconds; so a delay is a whole
-- number of microseconds. The columns of the analytics tables hold what their types say; the other
-- columns are not bounded in size, and their numbers do not overflow. A number that a rolled back
-- transaction has drawn from a SERIAL column counts as not drawn. A status column holds one of the
-- values that the sources write, and the payload of a task or of an outbox row is an object, as in
-- every row that the sources write. A VARCHAR column refuses a longer value, except that it cuts
-- spaces in excess, as PostgreSQL does.
--
-- There are no loops on fuel, except that the digits of a number are printed with its value as the
-- fuel, which is more than it has digits.
--
-- The session pool is a state of its own. Where a worker awaits an adapter or the guarded work,
-- what that does to the state, with everything that other processes do meanwhile, is an argument.
-- The parts of Python that are not written out (the dates, `int` and `str` of a text or a value,
-- `strip`) are the record Builtins; what pydantic reads in a value, and what the text functions of
-- the analytics do, are the records Readers and TextTools; JSON texts, one-time codes and logins
-- of the token refresh service are arguments. The loop of `collect` runs on the number of pages of
-- the plan, as in the source. An exception in the planner or in the worker has its class and not
-- always its text, and a call of an adapter that is cancelled, whose session lease is left to run
-- out, has no outcome.
--
-- Not modelled: the network and the asyncio scheduling; Redis, whose answers are arguments; the
-- collectors, the analytics API and its briefs; the processes with their signals and polling
-- loops; and the scripts that fill or migrate the database.
mod Prelude
pub mod Json
pub mod Schema
pub mod Results
pub mod Table
pub mod Tasks
pub mod Guard
pub mod Config
pub mod Outbox
pub mod Replay
pub mod ReplayTool
pub mod Cleanup
pub mod Tokens
pub mod TokenRefresh
pub mod Capabilities
pub mod Ledger
pub mod LegacyOutbox
pub mod System
pub mod Analytics
pub mod Alerts
pub mod Queue
pub mod Worker
mod Tests
