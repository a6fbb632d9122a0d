-- ===== src/Claim/Batch.antt =====
-- What `claim_batch` takes, leaves and returns.
use skip_locked.Prelude.{
  ℕ, ◌≤◌, ◌≡◌, sym, List, ◌++◌, Bool, true, false, contains, map, count_if, arith, Memᴰ, Permᴰ, min,
  inl, inr, select, not, String, take, drop, length, length-take, count_if-true, length-select,
  mem_of-select, mem-select, mem_of-take, some, All-mem, ◌⊎◌, length-perm, ap, subst,
}
use skip_locked.Prelude.Int.{pos}
use skip_locked.Postgres.{ok}
use skip_locked.Postgres.OrderBy.{OrderBy, mem-sort, mem_of-sort, IsSorted-take}
use skip_locked.Jobs.{Row, Db, Job, job_of}
use skip_locked.Jobs.Find.{Below, find, unique, count_id}
use skip_locked.Claim.Effect.{
  batch, claimed_db, update_claimed-ok, find-claimed_db, length-batch, mem_of-batch, batch-mem,
}
use skip_locked.Claim.{claimable, free, claimed_row, lock_rows, claim_batch_sql}
use skip_locked.Claim.Picked.{
  Unique, with_key_of_mem, count_if-with_key, mem_of-contains, window-perm,
}

module _ {P : Type 0} where
  abbrev pub row_id : Row P → ℕ
  row_id r = r.id

  pub Below-Unique : (n : ℕ) (rs : List (Row P)) → Below n rs → Unique row_id rs
  Below-Unique n rs b i = ground (arith, count_id i n rs b)

module _ {P : Type 0} (by_run_at : OrderBy (Row P) (λ r. r.run_at)) (held : ℕ → Bool) where
  pub rest_rows : List String → ℕ → ℕ → Db P → List (Row P)
  rest_rows kinds k now db =
      drop k (by_run_at.sort (select (free held now kinds) db.jobs))
      ++ select (λ r. not (free held now kinds r)) db.jobs

  -- The table is the locked rows and the rest.
  pub lock_rows-perm :
      (kinds : List String) (k now : ℕ) (db : Db P)
      → Permᴰ db.jobs (lock_rows by_run_at held kinds k now db ++ rest_rows kinds k now db)
  unfolding lock_rows rest_rows
  lock_rows-perm kinds k now db =
      window-perm (free held now kinds) k db.jobs _ (by_run_at.sort-perm _)

  pub mem_of-lock_rows :
      (kinds : List String) (k now : ℕ) (db : Db P) {r : Row P}
      → Memᴰ r (lock_rows by_run_at held kinds k now db)
      → Memᴰ r db.jobs × (free held now kinds r ≡ true)
  unfolding lock_rows
  mem_of-lock_rows kinds k now db m = mem_of-select (free held now kinds) db.jobs (
      mem_of-sort by_run_at _
        (mem_of-take k (by_run_at.sort (select (free held now kinds) db.jobs)) m))

  pub length-lock_rows :
      (kinds : List String) (k now : ℕ) (db : Db P)
      → length (lock_rows by_run_at held kinds k now db)
        ≡ min k (count_if (free held now kinds) db.jobs)
  unfolding lock_rows
  length-lock_rows kinds k now db =
      let eligible = select (free held now kinds) db.jobs in
      omega (
        arith,
        length-take k (by_run_at.sort eligible),
        length-perm (by_run_at.sort-perm eligible),
        length-select (free held now kinds) db.jobs,
      )

  abbrev pub locked_ids : List String → ℕ → ℕ → Db P → List ℕ
  locked_ids kinds k now db = map row_id (lock_rows by_run_at held kinds k now db)

  pub claim_batch_sql-ok :
      (kinds : List String) (k : ℕ) (worker : String) (now : ℕ) (db : Db P) {jobs : List (Job P)}
      {db' : Db P}
      → claim_batch_sql by_run_at held kinds (pos k) worker now db ≡ ok (jobs, db')
      → let ids = locked_ids kinds k now db in
        (jobs ≡ batch ids worker now db) × (db' ≡ claimed_db ids worker now db)
  unfolding claim_batch_sql
  claim_batch_sql-ok kinds k worker now db e =
      update_claimed-ok (locked_ids kinds k now db) worker now db e

  -- A key among the locked ones is that of a free row of the table, and of no other row.
  pub locked-free :
      (kinds : List String) (k now n : ℕ) (db : Db P) {r : Row P}
      → Below n db.jobs
      → Memᴰ r db.jobs
      → contains (locked_ids kinds k now db) r.id ≡ true
      → Memᴰ r (lock_rows by_run_at held kinds k now db) × (free held now kinds r ≡ true)
  locked-free kinds k now n db {r} b m h =
      let (q, mq, e) = mem_of-contains row_id (lock_rows by_run_at held kinds k now db) r.id h in
      let (mj, f) = mem_of-lock_rows kinds k now db mq in
      let same : q ≡ r = unique n db.jobs b mj m e in
      (
        subst (λ x. Memᴰ x (lock_rows by_run_at held kinds k now db)) same mq,
        subst (λ x. free held now kinds x ≡ true) same f,
      )

  module _ (kinds : List String) (k : ℕ) (worker : String) (now : ℕ) (db : Db P) (n : ℕ)
      (b : Below n db.jobs) {jobs : List (Job P)} {db' : Db P}
      (claimed : claim_batch_sql by_run_at held kinds (pos k) worker now db ≡ ok (jobs, db')) where
    -- The batch has as many jobs as there are free rows, up to the limit.
    pub length-claim_batch : length jobs ≡ min k (count_if (free held now kinds) db.jobs)
    length-claim_batch =
        let ids = locked_ids kinds k now db in
        omega (
          arith,
          ap length (claim_batch_sql-ok kinds k worker now db claimed).0,
          length-batch ids worker now db,
          count_if-with_key row_id (lock_rows by_run_at held kinds k now db)
              (rest_rows kinds k now db) (lock_rows-perm kinds k now db) (Below-Unique n db.jobs b)
              (λ r. true),
          count_if-true (lock_rows by_run_at held kinds k now db),
          length-lock_rows kinds k now db,
        )

    -- Every row is either untouched or, if it was free, claimed by the worker.
    pub claim_batch-rows :
        (r : Row P)
        → Memᴰ r db.jobs
        → (find r.id db'.jobs ≡ some r)
          ⊎ ((find r.id db'.jobs ≡ some (claimed_row now worker r))
              × (claimable now kinds r ≡ true)
              × (held r.id ≡ false))
    claim_batch-rows r m =
        let ids = locked_ids kinds k now db in
        let e = (claim_batch_sql-ok kinds k worker now db claimed).1 in
        ground (arith, e, find-claimed_db ids worker now db n b m, locked-free kinds k now n db b m)

    -- Every job returned is a free row of the table; it carries the attempt that the claim counted,
    -- and the worker now holds it.
    pub claim_batch-jobs :
        {j : Job P}
        → Memᴰ j jobs
        → (r : Row P) × Memᴰ r db.jobs
          × (free held now kinds r ≡ true)
          × (j ≡ job_of (claimed_row now worker r))
          × (find j.id db'.jobs ≡ some (claimed_row now worker r))
    claim_batch-jobs {j} m =
        let ids = locked_ids kinds k now db in
        let (ej, ed) = claim_batch_sql-ok kinds k worker now db claimed in
        let (r, mr, h, e) = mem_of-batch ids worker now db (subst (Memᴰ j) ej m) in
        let (l, f) = locked-free kinds k now n db b mr h in
        (r, mr, f, e, ground (arith, ed, e, find-claimed_db ids worker now db n b mr))

    -- A row that the claim took is in the batch.
    pub claim_batch-returns :
        (r : Row P)
        → Memᴰ r db.jobs
        → find r.id db'.jobs ≡ some (claimed_row now worker r)
        → Memᴰ (job_of (claimed_row now worker r)) jobs
    claim_batch-returns r m h =
        let ids = locked_ids kinds k now db in
        let (ej, ed) = claim_batch_sql-ok kinds k worker now db claimed in
        let hit : contains ids r.id ≡ true =
          ground (arith, ed, find-claimed_db ids worker now db n b m) in
        subst (Memᴰ (job_of (claimed_row now worker r))) (sym ej)
          (batch-mem ids worker now db m hit)

    -- First in, first out: no free row that is left is due before one that is taken.
    pub claim_batch-fifo :
        (r s : Row P)
        → Memᴰ r db.jobs
        → Memᴰ s db.jobs
        → free held now kinds r ≡ true
        → find r.id db'.jobs ≡ some r
        → find s.id db'.jobs ≡ some (claimed_row now worker s)
        → s.run_at ≤ r.run_at
    unfolding lock_rows
    claim_batch-fifo r s mr ms fr left taken =
        let ids = locked_ids kinds k now db in
        let ed = (claim_batch_sql-ok kinds k worker now db claimed).1 in
        let eligible = select (free held now kinds) db.jobs in
        let hit : contains ids s.id ≡ true =
          ground (arith, ed, find-claimed_db ids worker now db n b ms) in
        let miss : contains ids r.id ≡ false =
          ground (arith, ed, find-claimed_db ids worker now db n b mr) in
        elim (IsSorted-take (λ x. x.run_at) k (by_run_at.sort eligible)
          (by_run_at.sort-IsSorted eligible)
          (mem-sort by_run_at eligible (mem-select (free held now kinds) db.jobs mr fr))) [
            | inl t ↦ cc (miss, with_key_of_mem row_id (take k (by_run_at.sort eligible)) t)
            | inr h ↦
                All-mem (λ y. y.run_at ≤ r.run_at) (take k (by_run_at.sort eligible)) h
                  (locked-free kinds k now n db b ms hit).0
          ]
