-- ===== src/Tests/FairTests.antt =====
-- src/claim.rs, `fair_claim`.
use skip_locked.Prelude.{◌≡◌, refl, List, [], ◌∷◌, true, some, arith, Memᴰ, count_if}
use mathlib.Core.List.Memᴰ.{head, tail}
use skip_locked.Prelude.Int.{pos}
use skip_locked.Postgres.{ok, err, bigint_out_of_range}
use skip_locked.Postgres.Json.{text_objects}
use skip_locked.Postgres.OrderBy.{insertion_sort}
use skip_locked.Jobs.{Row, Db, Job, job_of, empty_db}
use skip_locked.Jobs.Find.{Below, find}
use skip_locked.Claim.{claimed_row, free, lock_rows, claim_batch_sql}
use skip_locked.Claim.Effect.{batch, claimed_db}
use skip_locked.Claim.Fair.{fair_claim_sql, same_carrier, carrier_of}
use skip_locked.Claim.Fair.Cap.{fair_claim-share, fair_claim-jobs}
use skip_locked.Claim.Fair.Plain.{fair_claim-plain}
use skip_locked.Tests.Data.{
  Payload, from_carrier, ready_job, by_run_at, by_window, nobody, webhooks,
}

-- Three jobs of a noisy carrier, one of a quiet one and one of none.
abbrev burst : Db Payload
burst = record empty_db {
  jobs =
      ready_job 5 14 []
      ∷ ready_job 4 13 (from_carrier "B")
      ∷ ready_job 3 12 (from_carrier "A")
      ∷ ready_job 2 11 (from_carrier "A")
      ∷ ready_job 1 10 (from_carrier "A")
      ∷ [];
  next_id = 6;
}

burst-Below : Below 6 burst.jobs
burst-Below = omega arith

abbrev fair_db : Db Payload
fair_db = claimed_db (5 ∷ 4 ∷ 2 ∷ 1 ∷ []) "w" 100 burst

abbrev fair_jobs : List (Job Payload)
fair_jobs = batch (5 ∷ 4 ∷ 2 ∷ 1 ∷ []) "w" 100 burst

-- With a cap of 2 the noisy carrier gets its two oldest jobs; the others get theirs. The `batch` of
-- 2 does not bound the answer.
claims_fairly :
    fair_claim_sql text_objects by_run_at by_window nobody webhooks (pos 2) (pos 2) "w" 100 burst
    ≡ ok (fair_jobs, fair_db)
unfolding fair_claim_sql insertion_sort
claims_fairly = refl

claims_too_many :
    fair_claim_sql text_objects by_run_at by_window nobody webhooks
      (pos 2305843009213693952)
      (pos 2)
      "w"
      100
      burst
    ≡ err bigint_out_of_range
unfolding fair_claim_sql
claims_too_many = refl

fair_claim-share_example :
    count_if (λ j. same_carrier (carrier_of text_objects j.payload) (some "A")) fair_jobs ≡ 2
unfolding lock_rows insertion_sort
fair_claim-share_example =
    fair_claim-share text_objects by_run_at by_window nobody webhooks 2 (pos 2) "w" 100 burst 6
      burst-Below {jobs = fair_jobs} {db' = fair_db} claims_fairly (some "A")

abbrev first_job : Row Payload
first_job = ready_job 1 10 (from_carrier "A")

fair_jobs_are_held :
    (r : Row Payload) × Memᴰ r (lock_rows by_run_at nobody webhooks 8 100 burst)
    × (free nobody 100 webhooks r ≡ true)
    × (job_of (claimed_row 100 "w" first_job) ≡ job_of (claimed_row 100 "w" r))
    × (find 1 fair_db.jobs ≡ some (claimed_row 100 "w" r))
fair_jobs_are_held =
    fair_claim-jobs text_objects by_run_at by_window nobody webhooks 2 (pos 2) "w" 100 burst 6
      burst-Below {jobs = fair_jobs} {db' = fair_db} claims_fairly
      {j = job_of (claimed_row 100 "w" first_job)} (tail (tail (tail (head refl))))

-- Of two jobs of two carriers both are claimed, though `batch` is 1.
abbrev pair : Db Payload
pair = record empty_db {
  jobs = ready_job 2 11 (from_carrier "B") ∷ ready_job 1 10 (from_carrier "A") ∷ [];
  next_id = 3;
}

abbrev pair_db : Db Payload
pair_db = claimed_db (2 ∷ 1 ∷ []) "w" 100 pair

abbrev pair_jobs : List (Job Payload)
pair_jobs = batch (2 ∷ 1 ∷ []) "w" 100 pair

claims_pair :
    fair_claim_sql text_objects by_run_at by_window nobody webhooks (pos 1) (pos 2) "w" 100 pair
    ≡ ok (pair_jobs, pair_db)
unfolding fair_claim_sql insertion_sort
claims_pair = refl

fair_claim-plain_example :
    fair_claim_sql text_objects by_run_at by_window nobody webhooks (pos 1) (pos 2) "w" 100 pair
    ≡ claim_batch_sql by_run_at nobody webhooks (pos 4) "w" 100 pair
unfolding lock_rows insertion_sort
fair_claim-plain_example =
    fair_claim-plain text_objects by_run_at by_window nobody webhooks 1 (pos 2) 100 pair 3
      (omega arith) (λ c. ground arith) "w" refl
