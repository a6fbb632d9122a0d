-- ===== src/Retry/Reclaimed.antt =====
-- When a job that was requeued comes back from a claim.
use skip_locked.Prelude.{
  ℕ, suc, ◌+◌, ◌*◌, ◌^◌, ◌≤◌, ◌<◌, ◌≡◌, ◌⊎◌, min, leb, List, Bool, true, false, some, String, Memᴰ,
  count_if, arith, Bool-cases, inl, inr,
}
use skip_locked.Prelude.Int.{pos}
use skip_locked.Postgres.{ok}
use skip_locked.Postgres.OrderBy.{OrderBy}
use skip_locked.Jobs.{Row, Db, Job, second}
use skip_locked.Jobs.Find.{Below, find, find-mem}
use skip_locked.Claim.{free, any_kind, claim_batch_sql}
use skip_locked.Claim.Batch.{claim_batch-rows}
use skip_locked.Claim.Every.{claim-all}
use skip_locked.Retry.{requeued, requeue_sql}
use skip_locked.Retry.Requeue.{requeue_sql-job, requeue_sql-Below}

module _ {P : Type 0} (order : OrderBy (Row P) (λ r. r.run_at)) (held : ℕ → Bool) where
  -- A job with an attempt left is requeued, and later a claim of its kind goes through, with no other transaction
  -- holding the job and a limit not below the number of free jobs. Before its delay is over, 2 to the power of its
  -- attempts in seconds and at most an hour, the claim leaves the job as the requeue did; from then on it returns it,
  -- with one more attempt.
  pub requeue-claim :
      (id : ℕ) (error : String) (now later n : ℕ) (db : Db P) (kinds : List String) (k : ℕ)
      (worker : String) {r : Row P} {u : ℕ} {jobs : List (Job P)} {db' db'' : Db P}
      → Below n db.jobs
      → Memᴰ r db.jobs
      → r.id ≡ id
      → r.attempts < r.max_attempts
      → requeue_sql id error now db ≡ ok (u, db')
      → any_kind kinds r.kind ≡ true
      → held id ≡ false
      → count_if (free held later kinds) db'.jobs ≤ k
      → claim_batch_sql order held kinds (pos k) worker later db' ≡ ok (jobs, db'')
      → ((later < now + min (2 ^ r.attempts) 3600 * second)
          × (find id db''.jobs ≡ some (requeued error now r)))
        ⊎ ((now + min (2 ^ r.attempts) 3600 * second ≤ later)
            × Memᴰ
                (record { id = id; kind = r.kind; payload = r.payload; attempts = suc r.attempts })
                jobs)
  requeue-claim id error now later n db kinds k worker {r} {u} {jobs} {db'} b mem key spare e served
        unheld few e' =
      let q = requeued error now r in
      let found : find id db'.jobs ≡ some q =
        ground (arith, requeue_sql-job id error now n db b e mem key, spare) in
      let (m, _) = find-mem id db'.jobs found in
      let b' : Below n db'.jobs = requeue_sql-Below id error now n db b e in
      elim (Bool-cases (leb q.run_at later)) [
        | inl t ↦ inr (
          ground (arith, t),
          rw (← key) (
              claim-all order held kinds k worker later db' e' few m
                (ground (arith, t, served, key, unheld))),
        )
        | inr f ↦ inl (
          ground (arith, f),
          ground (arith, f, key, claim_batch-rows order held kinds k worker later db' n b' e' q m),
        )
      ]
