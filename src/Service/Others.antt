-- ===== src/Service/Others.antt =====
-- What another session's statement does to the running rows of a worker.
use skip_locked.Prelude.{
  ℕ, ◌≤◌, ◌≡◌, List, [], ◌∷◌, Bool, false, arith, count_if, contains, ◌==◌, inl, inr, Bool-cases,
  any, String, str_eq, ◌&&◌, leb,
}
use skip_locked.Prelude.Int.{pos, negsuc}
use skip_locked.Postgres.{Result-cases}
use skip_locked.Jobs.{Row, Db}
use skip_locked.Jobs.Update.{update_where, delete_where}
use skip_locked.Enqueue.{insert_job, insert_job_at, mark_done_sql, done_row}
use skip_locked.Claim.{claim_batch_sql, claimed_row, update_claimed, overflows}
use skip_locked.Claim.Fair.{fair_claim_sql, fair_ids, times_four}
use skip_locked.Lease.{
  heartbeat_sql, reap_sql, holds, beaten, expired, released, cutoff, lease_secs,
}
use skip_locked.Retry.{requeue_sql, dead_letter_sql, retriable, requeued, max_exponent}
use skip_locked.Queue.{
  Op, insert, insert_at, claim, claim_fairly, finish, beat, reaps, retry, bury, after, apply,
}
use skip_locked.Worker.{WorkerConfig}
use skip_locked.Service.{mine, mine_in, claims_as}

module _ {P : Type 0} (cfg : WorkerConfig) (i : ℕ) where
  -- An update that makes no row the worker's.
  update-mine :
      (p : Row P → Bool) (f : Row P → Row P) (rs : List (Row P))
      → ((r : Row P) → mine cfg i r ≡ false → mine cfg i (f r) ≡ false)
      → count_if (mine cfg i) (update_where p f rs) ≤ count_if (mine cfg i) rs
  update-mine p f [] h = omega arith
  update-mine p f (r ∷ rs) h = elim (Bool-cases (mine cfg i r)) [
    | inl t ↦ rw t (ground (arith, update-mine p f rs h))
    | inr u ↦ let k = h r u in ground (arith, update-mine p f rs h, u, k)
  ]

  delete-mine :
      (p : Row P → Bool) (rs : List (Row P))
      → count_if (mine cfg i) (delete_where p rs) ≤ count_if (mine cfg i) rs
  delete-mine p [] = omega arith
  delete-mine p (r ∷ rs) = ground (arith, delete-mine p rs)

  update_claimed-mine :
      (ids : List ℕ) (worker : String) (now : ℕ) (db : Db P)
      → str_eq worker cfg.worker_id ≡ false
      → mine_in cfg i (after db (update_claimed ids worker now db)) ≤ mine_in cfg i db
  unfolding update_claimed
  update_claimed-mine ids worker now db h = elim (Bool-cases (any (overflows ids) db.jobs)) [
    | inl t ↦ rw t (omega arith)
    | inr u ↦ rw u (
        update-mine (λ r. contains ids r.id) (claimed_row now worker) db.jobs
          (λ r m. ground (arith, h)))
  ]

  -- No statement of another session gives the worker a row.
  pub others-mine :
      (op : Op P) (now : ℕ) (db : Db P)
      → claims_as op cfg.worker_id ≡ false
      → mine_in cfg i (apply op now db) ≤ mine_in cfg i db
  unfolding apply insert_job insert_job_at mark_done_sql claim_batch_sql heartbeat_sql reap_sql
      requeue_sql dead_letter_sql fair_claim_sql
  others-mine (insert kind payload) now db h = ground arith
  others-mine (insert_at kind payload run_at) now db h = ground arith
  others-mine (claim order held kinds (negsuc n) worker) now db h = omega arith
  others-mine (claim order held kinds (pos n) worker) now db h =
      update_claimed-mine _ worker now db h
  others-mine (claim_fairly json order window held kinds size share worker) now db h =
      elim (Result-cases (times_four size)) [
        | inl (pos k, q) ↦ rw q (
            update_claimed-mine (fair_ids json order window held kinds k share now db) worker now db
              h)
        | inl (negsuc k, q) ↦ rw q (omega arith)
        | inr (e, q) ↦ rw q (omega arith)
      ]
  others-mine (finish id) now db h =
      update-mine (λ r. r.id == id) done_row db.jobs (λ r m. ground arith)
  others-mine (beat ids worker) now db h =
      update-mine (holds ids worker) (beaten now) db.jobs (λ r m. m)
  others-mine (reaps lease) now db h = elim (Result-cases (cutoff (lease_secs lease) now)) [
    | inl (c, q) ↦ rw q (update-mine (expired c) released db.jobs (λ r m. ground arith))
    | inr (e, q) ↦ rw q (omega arith)
  ]
  others-mine (retry id error) now db h =
      elim (Bool-cases (any (λ r. retriable id r && leb max_exponent r.attempts) db.jobs)) [
        | inl t ↦ rw t (omega arith)
        | inr u ↦
            rw u (update-mine (retriable id) (requeued error now) db.jobs (λ r m. ground arith))
      ]
  others-mine (bury id error) now db h = delete-mine (λ r. r.id == id) db.jobs
