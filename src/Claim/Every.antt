-- ===== src/Claim/Every.antt =====
-- A claim with a limit that is large enough.
use skip_locked.Prelude.{
  ℕ, ◌≤◌, ◌≡◌, sym, subst, List, Bool, true, String, Memᴰ, select, count_if, arith, take_all,
  length-perm, length-select, mem-select,
}
use skip_locked.Prelude.Int.{pos}
use skip_locked.Postgres.{ok}
use skip_locked.Postgres.OrderBy.{OrderBy, mem-sort}
use skip_locked.Jobs.{Row, Db, Job, job_of}
use skip_locked.Claim.{free, claimed_row, lock_rows, claim_batch_sql}
use skip_locked.Claim.Picked.{with_key_of_mem}
use skip_locked.Claim.Effect.{batch-mem}
use skip_locked.Claim.Batch.{locked_ids, claim_batch_sql-ok, row_id}

module _ {P : Type 0} (order : OrderBy (Row P) (λ r. r.run_at)) (held : ℕ → Bool) where
  -- A claim whose limit is not below the number of free rows returns each of them.
  pub claim-all :
      (kinds : List String) (k : ℕ) (worker : String) (now : ℕ) (db : Db P) {jobs : List (Job P)}
      {db' : Db P} {r : Row P}
      → claim_batch_sql order held kinds (pos k) worker now db ≡ ok (jobs, db')
      → count_if (free held now kinds) db.jobs ≤ k
      → Memᴰ r db.jobs
      → free held now kinds r ≡ true
      → Memᴰ (job_of (claimed_row now worker r)) jobs
  unfolding lock_rows
  claim-all kinds k worker now db {r = r} e few m f =
      let eligible = select (free held now kinds) db.jobs in
      let all : lock_rows order held kinds k now db ≡ order.sort eligible =
        take_all k (order.sort eligible) (
          omega (
            arith,
            few,
            length-perm (order.sort-perm eligible),
            length-select (free held now kinds) db.jobs,
          )) in
      let taken : Memᴰ r (lock_rows order held kinds k now db) =
        subst (Memᴰ r) (sym all)
          (mem-sort order eligible (mem-select (free held now kinds) db.jobs m f)) in
      subst (Memᴰ (job_of (claimed_row now worker r)))
        (sym (claim_batch_sql-ok order held kinds k worker now db e).0)
        (batch-mem (locked_ids order held kinds k now db) worker now db m
          (with_key_of_mem row_id (lock_rows order held kinds k now db) taken))
