-- ===== src/Tests/QueueTests.antt =====
-- A history of the whole queue, and src/lib.rs.
use skip_locked.Prelude.{ℕ, ◌*◌, ◌≡◌, refl, List, [], ◌∷◌, ◌⊎◌, Memᴰ, arith}
use skip_locked.Prelude.Int.{pos}
use skip_locked.Postgres.{ok, IsErr}
use skip_locked.Postgres.OrderBy.{insertion_sort}
use skip_locked.Postgres.Json.{text_objects}
use skip_locked.Jobs.{Row, Db, Job, second, empty_db}
use skip_locked.Session.{delivered, reply_lost}
use skip_locked.Enqueue.{enqueue_pool, new_row, insert_job, insert_job_at, mark_done_sql, done_row}
use skip_locked.Enqueue.Atomic.{Landed, Untouched, enqueue_pool-atomic}
use skip_locked.Claim.{claimed_row, claim_batch_sql}
use skip_locked.Claim.Fair.{fair_claim_sql}
use skip_locked.Lease.{heartbeat_sql, beaten}
use skip_locked.Retry.{requeue_sql, dead_letter_sql}
use skip_locked.Queue.{
  Op, insert, insert_at, claim, claim_fairly, finish, beat, retry, bury, run, after,
}
use skip_locked.Queue.Lawful.{Inv}
use skip_locked.Enqueue.Returned.{enqueue-claim}
use skip_locked.Claim.Effect.{batch, claimed_db}
use skip_locked.Queue.Runs.{run-Inv, empty_db-Inv}
use skip_locked.Queue.Conserved.{IsWhole, run-IsWhole, empty_db-IsWhole}
use skip_locked.Queue.Lifecycle.{finished, stage_of}
use skip_locked.Queue.Settled.{run-finished}
use skip_locked.Tests.Data.{
  Payload, from_carrier, by_run_at, by_window, nobody, webhooks, world, table,
}

-- Two jobs are enqueued and claimed; the first is done, the second fails and is buried.
abbrev history : List (ℕ × Op Payload)
history =
    (10, insert "webhook" (from_carrier "A"))
    ∷ (11, insert_at "webhook" (from_carrier "B") 15)
    ∷ (20, claim by_run_at nobody webhooks (pos 1) "w1")
    ∷ (21, claim_fairly text_objects by_run_at by_window nobody webhooks (pos 8) (pos 2) "w2")
    ∷ (30, beat (1 ∷ []) "w1")
    ∷ (40, finish 1)
    ∷ (50, retry 2 "carrier 503")
    ∷ (3 * second, claim by_run_at nobody webhooks (pos 4) "w2")
    ∷ (4 * second, bury 2 "bad schema")
    ∷ []

abbrev first_done : Row Payload
first_done = done_row (beaten 30 (claimed_row 20 "w1" (new_row 1 "webhook" (from_carrier "A") 10)))

history_ends : (run history empty_db).jobs ≡ first_done ∷ []
unfolding run insert_job insert_job_at claim_batch_sql fair_claim_sql heartbeat_sql mark_done_sql
    requeue_sql dead_letter_sql insertion_sort
history_ends = refl

run-Inv_example : Inv (run history empty_db)
run-Inv_example = run-Inv history empty_db empty_db-Inv

run-IsWhole_example : IsWhole (run history empty_db)
run-IsWhole_example = run-IsWhole history empty_db (empty_db-IsWhole Payload)

-- The first job is done; a claim, a reap and the retry of another job leave it so.
abbrev later : List (ℕ × Op Payload)
later =
    (5 * second, claim by_run_at nobody webhooks (pos 9) "w3")
    ∷ (6 * second, retry 2 "carrier 503")
    ∷ (7 * second, finish 1)
    ∷ []

first_is_done : stage_of 1 (run history empty_db) ≡ finished 1
unfolding run insert_job insert_job_at claim_batch_sql fair_claim_sql heartbeat_sql mark_done_sql
    requeue_sql dead_letter_sql insertion_sort
first_is_done = refl

run-finished_example : stage_of 1 (run later (run history empty_db)) ≡ finished 1
run-finished_example =
    run-finished 1 1 later (run history empty_db) (run-Inv history empty_db empty_db-Inv)
      (run-IsWhole history empty_db (empty_db-IsWhole Payload)) (tt, (λ e. omega arith, (tt, tt)))
      first_is_done

-- A job that is enqueued into the table is claimed with the two that are due.
abbrev with_new : Db Payload
with_new = after table (insert_job_at "webhook" [] 50 40 table)

abbrev claimed_new : List (Job Payload)
claimed_new = batch (5 ∷ 2 ∷ 1 ∷ []) "w" 100 with_new

claims_new :
    claim_batch_sql by_run_at nobody webhooks (pos 8) "w" 100 with_new
    ≡ ok (claimed_new, claimed_db (5 ∷ 2 ∷ 1 ∷ []) "w" 100 with_new)
unfolding claim_batch_sql insertion_sort insert_job_at
claims_new = refl

enqueue-claim_example :
    Memᴰ (record { id = 5; kind = "webhook"; payload = []; attempts = 1 }) claimed_new
enqueue-claim_example =
    enqueue-claim by_run_at nobody "webhook" [] 50 40 100 table webhooks 8 "w" {jobs = claimed_new}
      {db' = claimed_db (5 ∷ 2 ∷ 1 ∷ []) "w" 100 with_new} refl (omega arith) refl (omega arith)
      claims_new

-- The commit's reply is lost: the job is there, and the caller has an error.
enqueue_pool-atomic_example :
    let (r, w') =
      enqueue_pool "webhook" [] (world (delivered ∷ delivered ∷ delivered ∷ reply_lost ∷ [])) in
    (Landed "webhook" [] 100 table w'.db × ((r ≡ ok 5) ⊎ IsErr r))
    ⊎ (Untouched table w'.db × IsErr r)
enqueue_pool-atomic_example =
    enqueue_pool-atomic "webhook" [] (world (delivered ∷ delivered ∷ delivered ∷ reply_lost ∷ []))
