-- ===== src/Lib.antt =====
-- A model of skip-locked, a Postgres job queue in one table, and the theorems that make it correct.
--
-- The crate is a set of SQL statements behind async functions. Here a statement is a function from
-- `now()` and the tables to an error or an answer and new tables (`Stmt` in Session); a function of
-- the crate runs its statements through round trips that may fail before or after the server has
-- acted (`World`, `execute`, `execute_in` in Session). A table is a list of rows, newest first, and
-- time is a count of microseconds from the earliest timestamp.
--
-- What the source takes from Postgres, sqlx and serde_json is a parameter: the order of rows with
-- equal `run_at` (Postgres.OrderBy), the rows that other transactions hold when a claim runs (`held`),
-- JSON objects and `->>` (Postgres.Json). Of RETURNING no order is promised: the model gives the
-- order of the table, and no theorem depends on it.
--
--   Jobs       migrations/0001_jobs.sql: the rows of jobs and jobs_dead, UPDATE and DELETE (Update),
--              and lookup by primary key (Find).
--   Session    sqlx: statements on a pool, transactions, and what a failed round trip leaves.
--   Enqueue    src/lib.rs: enqueue, enqueue_at, notify_ready, enqueue_pool, mark_done.
--   Claim      src/claim.rs: claim_batch (Claim) and fair_claim (Claim.Fair).
--   Lease      src/lease.rs: heartbeat and reap.
--   Retry      src/retry.rs: classify, requeue and dead_letter.
--   Worker     src/worker.rs: run_worker as a state machine; an event is what the runtime does next.
--              A run is any list of events that can happen one after the other, so no fuel is needed.
--   Service    that worker with the tables, the handler of examples/worker.rs and lost round trips,
--              beside other sessions, which run any statement but a claim under its id. A claim that
--              the token drops has run by then or never runs.
--   Idempotent examples/demo_idempotency.rs: process, its repeated delivery, and many handlers at once
--              (Handlers), of which one waits while another has inserted the same key.
--   Migration  examples/bench_migration.rs: the webhook handler, the generator of payloads, and the
--              main (Run). Texts of numbers are built for up to 20 digits, which hold every 64-bit
--              integer. The JSON parser is a parameter; Document has JSON documents, their compact
--              text, and what the derived readers of the webhook types make of a document.
--   Demos      examples/producer.rs, demo_fairness.rs, demo_reaper.rs, demo_skip_locked.rs, worker.rs
--              (Example), the probes of demo_pgbouncer.rs (Bouncer) and the main of
--              demo_idempotency.rs (Rerun).
--   Claimers   sessions that run at the same time: a claim locks its rows in one step and commits in
--              another, and between the two any other statement runs that Postgres would let through
--              (Steps). A fair claim holds its whole window, of which it updates some rows only
--              (Windows). The order of equal times is chosen anew by each claim.
--   Bench      examples/bench_throughput.rs and bench_claim_latency.rs: the loops that claim, or claim
--              and complete, until a claim comes back empty, on a fuel; more than the number of free
--              jobs is enough. Crew has the workers of bench_throughput.rs at the same time, which
--              claim, or claim and complete; a turn that panics ends the run. Throughput and Latency
--              have the two mains, from the variables to the printed counts; the clocks are left out.
--              Floating-point numbers are a parameter of pct.
--   Pool       src/pool.rs, with sqlx as a parameter.
--   Queue      all statements in any order: the invariant of the table, conservation of jobs, and the
--              life of one job as an abstract state machine (Lifecycle): missing, waiting, working,
--              finished, buried. Claimers.Lives has it beside claims that hold their locks.
--   Tests      runs at concrete tables, and each theorem at an input.
--
-- In each module `f_sql` is the statement of the function `f`. Errors that a statement can raise are
-- modelled: a negative LIMIT, the overflow of `batch * 4`, of `attempts + 1`, of `power` and of the
-- interval of the reaper. Left out:
-- the end of the identity sequence, timestamps past the year 294276, indexes, vacuum and storage
-- settings, and what the rows of a statement look like to others while it runs. Not modelled, since
-- they are not of this code: sqlx, tokio, PgBouncer and the URLs that they are given; since they do
-- not change results: tracing, printing and clocks of the examples, and the migration runner; and
-- migrations/0002_partitioning.sql, which no code uses, and the scripts of bench.
pub mod Prelude
pub mod Postgres
pub mod Jobs
pub mod Session
pub mod Enqueue
pub mod Claim
pub mod Lease
pub mod Retry
pub mod Queue
pub mod Worker
pub mod Idempotent
pub mod Migration
pub mod Demos
pub mod Claimers
pub mod Bench
pub mod Service
pub mod Pool
mod Tests
