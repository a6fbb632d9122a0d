-- ===== src/Tests/RetryTests.antt =====
-- src/retry.rs.
use skip_locked.Prelude.{
  ℕ, ◌+◌, ◌*◌, ◌≤◌, ◌<◌, ◌≡◌, ◌≢◌, refl, [], ◌∷◌, some, none, ◌⊎◌, min, ◌^◌, arith, Memᴰ,
}
use mathlib.Core.List.Memᴰ.{head}
use skip_locked.Postgres.{ok}
use skip_locked.Jobs.{Row, Db, second}
use skip_locked.Jobs.Find.{find}
use skip_locked.Retry.{
  Class, HandlerError, classify, requeue_sql, requeued, dead_letter_sql, dead_row,
}
use skip_locked.Retry.Requeue.{requeue_sql-job}
use skip_locked.Retry.Reclaimed.{requeue-claim}
use skip_locked.Claim.{claim_batch_sql}
use skip_locked.Claim.Effect.{batch, claimed_db}
use skip_locked.Postgres.OrderBy.{insertion_sort}
use skip_locked.Prelude.Int.{pos}
use skip_locked.Retry.DeadLetter.{dead_letter_sql_lem}
use skip_locked.Tests.Data.{
  Payload, job_a, job_b, job_late, job_run, table, table-Below, webhooks, by_run_at, nobody,
}

classify_timeout : classify (HandlerError.transient "db timeout") ≡ Class.transient
unfolding classify
classify_timeout = refl

classify_schema : classify (HandlerError.permanent "bad schema") ≡ Class.permanent
unfolding classify
classify_schema = refl

abbrev retried_table : Db Payload
retried_table = record table {
  jobs = requeued "carrier 503" (20 * second) (job_run 3) ∷ job_late ∷ job_b ∷ job_a ∷ [];
}

retries : requeue_sql 4 "carrier 503" (20 * second) table ≡ ok (1, retried_table)
unfolding requeue_sql
retries = refl

third_attempt_waits : (requeued "carrier 503" (20 * second) (job_run 3)).run_at ≡ 28 * second
third_attempt_waits = refl

requeue_sql-job_example :
    ((3 < 20)
      × (◌≡◌ {A = ℕ} 1 1)
      × (find 4 retried_table.jobs ≡ some (requeued "carrier 503" (20 * second) (job_run 3))))
    ⊎ ((20 ≤ 3) × (◌≡◌ {A = ℕ} 1 0) × (retried_table ≡ table))
requeue_sql-job_example =
    requeue_sql-job 4 "carrier 503" (20 * second) 5 table table-Below retries {r = job_run 3}
      (head refl) refl

-- Seven seconds later its delay of eight is not over, and a claim takes the three other jobs.
abbrev early : Db Payload
early = claimed_db (3 ∷ 2 ∷ 1 ∷ []) "w" (27 * second) retried_table

early_claims :
    claim_batch_sql by_run_at nobody webhooks (pos 9) "w" (27 * second) retried_table
    ≡ ok (batch (3 ∷ 2 ∷ 1 ∷ []) "w" (27 * second) retried_table, early)
unfolding claim_batch_sql insertion_sort
early_claims = refl

requeue-claim_example :
    ((27 * second < 20 * second + min (2 ^ 3) 3600 * second)
      × (find 4 early.jobs ≡ some (requeued "carrier 503" (20 * second) (job_run 3))))
    ⊎ ((20 * second + min (2 ^ 3) 3600 * second ≤ 27 * second)
        × Memᴰ
            (record { id = 4; kind = "webhook"; payload = (job_run 3).payload; attempts = 4 })
            (batch (3 ∷ 2 ∷ 1 ∷ []) "w" (27 * second) retried_table))
requeue-claim_example =
    requeue-claim by_run_at nobody 4 "carrier 503" (20 * second) (27 * second) 5 table webhooks 9
      "w" {r = job_run 3} table-Below (head refl) refl (omega arith) retries refl refl (omega arith)
      early_claims

-- An hour later it is returned too.
late_claim :
    claim_batch_sql by_run_at nobody webhooks (pos 9) "w" (3600 * second) retried_table
    ≡ ok (
      batch (4 ∷ 3 ∷ 2 ∷ 1 ∷ []) "w" (3600 * second) retried_table,
      claimed_db (4 ∷ 3 ∷ 2 ∷ 1 ∷ []) "w" (3600 * second) retried_table,
    )
unfolding claim_batch_sql insertion_sort
late_claim = refl

dead_letter_sql_lem_example :
    (k : ℕ) × (db' : Db Payload) × (dead_letter_sql 4 "unknown event" 50 table ≡ ok (k, db'))
    × (find 4 db'.jobs ≡ none)
    × ((j : ℕ) → j ≢ 4 → find j db'.jobs ≡ find j table.jobs)
    × ((r : Row Payload)
        → find 4 table.jobs ≡ some r
        → (k ≡ 1) × (db'.jobs_dead ≡ dead_row "unknown event" 50 r ∷ table.jobs_dead))
    × (find 4 table.jobs ≡ none → (k ≡ 0) × (db' ≡ table))
dead_letter_sql_lem_example = dead_letter_sql_lem 4 "unknown event" 50 5 table table-Below
