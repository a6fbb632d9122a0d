-- ===== src/Enqueue/Returned.antt =====
-- What was enqueued comes back from a claim.
use mathlib.Core.List.Memᴰ.{head}
use skip_locked.Prelude.{
  ℕ, suc, ◌≤◌, ◌<◌, ◌≡◌, refl, List, ◌∷◌, Bool, true, false, String, Memᴰ, count_if, arith,
}
use skip_locked.Prelude.Int.{pos}
use skip_locked.Postgres.{ok}
use skip_locked.Postgres.OrderBy.{OrderBy}
use skip_locked.Jobs.{Row, Db, Job}
use skip_locked.Enqueue.{new_row, insert_job_at}
use skip_locked.Claim.{free, any_kind, claim_batch_sql}
use skip_locked.Queue.{after}
use skip_locked.Claim.Every.{claim-all}

module _ {P : Type 0} (order : OrderBy (Row P) (λ r. r.run_at)) (held : ℕ → Bool) where
  -- A job that was enqueued is returned by a claim of its kind, with the id that the enqueue answered, its kind, its
  -- payload and one attempt, if it is due, no other transaction holds it, the limit is above the number of jobs that
  -- were free before, and the claim goes through.
  pub enqueue-claim :
      (kind : String) (payload : P) (run_at then now : ℕ) (db : Db P) (kinds : List String) (k : ℕ)
      (worker : String) {jobs : List (Job P)} {db' : Db P}
      → any_kind kinds kind ≡ true
      → run_at ≤ now
      → held db.next_id ≡ false
      → count_if (free held now kinds) db.jobs < k
      → claim_batch_sql order held kinds
          (pos k)
          worker
          now
          (after db (insert_job_at kind payload run_at then db))
        ≡ ok (jobs, db')
      → Memᴰ (record { id = db.next_id; kind = kind; payload = payload; attempts = 1 }) jobs
  unfolding insert_job_at
  enqueue-claim kind payload run_at then now db kinds k worker serves due unheld few e =
      let r = new_row db.next_id kind payload run_at in
      claim-all order held kinds k worker now
        (record db { jobs = r ∷ db.jobs; next_id = suc db.next_id }) e (ground (arith, few))
        (head refl) (ground (arith, serves, due, unheld))
