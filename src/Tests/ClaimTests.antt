-- ===== src/Tests/ClaimTests.antt =====
-- src/claim.rs, `claim_batch`.
use skip_locked.Prelude.{◌≤◌, ◌≡◌, refl, List, [], ◌∷◌, true, false, some, length, Memᴰ, ◌==◌, ◌⊎◌}
use mathlib.Core.List.Memᴰ.{head, tail}
use skip_locked.Prelude.Int.{pos, negsuc}
use skip_locked.Postgres.{ok, err, negative_limit}
use skip_locked.Postgres.OrderBy.{insertion_sort}
use skip_locked.Jobs.{Row, Db, Job, job_of}
use skip_locked.Jobs.Find.{find}
use skip_locked.Claim.{claim_batch_sql, claimed_row, claimable, free}
use skip_locked.Claim.Effect.{batch, claimed_db}
use skip_locked.Claim.Batch.{
  length-claim_batch, claim_batch-rows, claim_batch-jobs, claim_batch-fifo,
}
use skip_locked.Tests.Data.{Payload, job_a, job_b, table, table-Below, by_run_at, nobody, webhooks}

abbrev one_db : Db Payload
one_db = claimed_db (2 ∷ []) "w2" 100 table

abbrev one_job : List (Job Payload)
one_job = batch (2 ∷ []) "w2" 100 table

-- With room for one job the claim takes the one that is due first, and not the one with the lower id.
claims_one : claim_batch_sql by_run_at nobody webhooks (pos 1) "w2" 100 table ≡ ok (one_job, one_db)
unfolding claim_batch_sql insertion_sort
claims_one = refl

-- The row that another transaction holds is skipped, and does not count for the limit.
claims_unheld :
    claim_batch_sql by_run_at (λ i. i == 2) webhooks (pos 1) "w2" 100 table
    ≡ ok (batch (1 ∷ []) "w2" 100 table, claimed_db (1 ∷ []) "w2" 100 table)
unfolding claim_batch_sql insertion_sort
claims_unheld = refl

claims_negative :
    claim_batch_sql by_run_at nobody webhooks (negsuc 0) "w2" 100 table ≡ err negative_limit
unfolding claim_batch_sql
claims_negative = refl

length-claim_batch_example : length one_job ≡ 1
length-claim_batch_example =
    length-claim_batch by_run_at nobody webhooks 1 "w2" 100 table 5 table-Below {jobs = one_job}
      {db' = one_db} claims_one

claim_batch-rows_example :
    (find 2 one_db.jobs ≡ some job_b)
    ⊎ ((find 2 one_db.jobs ≡ some (claimed_row 100 "w2" job_b))
        × (claimable 100 webhooks job_b ≡ true)
        × (nobody 2 ≡ false))
claim_batch-rows_example =
    claim_batch-rows by_run_at nobody webhooks 1 "w2" 100 table 5 table-Below {jobs = one_job}
      {db' = one_db} claims_one job_b (tail (tail (head refl)))

claim_batch-jobs_example :
    (r : Row Payload) × Memᴰ r table.jobs
    × (free nobody 100 webhooks r ≡ true)
    × (job_of (claimed_row 100 "w2" job_b) ≡ job_of (claimed_row 100 "w2" r))
    × (find 2 one_db.jobs ≡ some (claimed_row 100 "w2" r))
claim_batch-jobs_example =
    claim_batch-jobs by_run_at nobody webhooks 1 "w2" 100 table 5 table-Below {jobs = one_job}
      {db' = one_db} claims_one {j = job_of (claimed_row 100 "w2" job_b)} (head refl)

claim_batch-fifo_example : job_b.run_at ≤ job_a.run_at
claim_batch-fifo_example =
    claim_batch-fifo by_run_at nobody webhooks 1 "w2" 100 table 5 table-Below {jobs = one_job}
      {db' = one_db} claims_one job_a job_b (tail (tail (tail (head refl))))
      (tail (tail (head refl))) refl refl refl
