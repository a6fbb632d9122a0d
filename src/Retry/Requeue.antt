-- ===== src/Retry/Requeue.antt =====
-- What `requeue` does to a job.
use skip_locked.Prelude.{ℕ, ◌≤◌, ◌<◌, ◌≡◌, ◌≢◌, refl, Bool, some, String, ◌⊎◌, arith, Memᴰ}
use skip_locked.Postgres.{ok}
use skip_locked.Jobs.{Row, Db}
use skip_locked.Jobs.Update.{update_where_none}
use skip_locked.Jobs.Find.{
  Below, find, find_of_mem, find-update_where, count_keyed, update_where-Below,
}
use skip_locked.Retry.{retriable, requeued, requeue_sql}

module _ {P : Type 0} where
  module _ (id : ℕ) (error : String) (now n : ℕ) (db : Db P) {k : ℕ} {db' : Db P}
      (b : Below n db.jobs) (e : requeue_sql id error now db ≡ ok (k, db')) where
    -- The job goes back to `ready` with its delay if it has an attempt left. Otherwise nothing
    -- changes, and the answer 0 tells the caller to dead-letter it.
    pub requeue_sql-job :
        {r : Row P}
        → Memᴰ r db.jobs
        → r.id ≡ id
        → ((r.attempts < r.max_attempts)
            × (k ≡ 1)
            × (find id db'.jobs ≡ some (requeued error now r)))
          ⊎ ((r.max_attempts ≤ r.attempts) × (k ≡ 0) × (db' ≡ db))
    unfolding requeue_sql
    requeue_sql-job {r} m h =
        let hit : Row P → Bool = retriable id in
        ground (
          arith,
          count_keyed hit id n db.jobs b (λ s t. ground arith),
          update_where_none hit (requeued error now) db.jobs,
          find_of_mem n db.jobs b m,
          find-update_where hit (requeued error now) id db.jobs (λ s. refl),
        )

    -- The table keeps its keys.
    pub requeue_sql-Below : Below n db'.jobs
    unfolding requeue_sql
    requeue_sql-Below =
        ground
          (arith, update_where-Below n (retriable id) (requeued error now) db.jobs (λ r. refl) b)

    -- No other job is touched.
    pub requeue_sql-others : {s : Row P} → Memᴰ s db.jobs → s.id ≢ id → find s.id db'.jobs ≡ some s
    unfolding requeue_sql
    requeue_sql-others {s} m h = ground (
      arith,
      find_of_mem n db.jobs b m,
      find-update_where (retriable id) (requeued error now) s.id db.jobs (λ s. refl),
    )
