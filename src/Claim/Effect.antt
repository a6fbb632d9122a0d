-- ===== src/Claim/Effect.antt =====
-- The outer UPDATE of the two claims, for any set of ids.
use skip_locked.Prelude.{
  ℕ, ◌≡◌, refl, List, Bool, true, false, if◌then◌else◌, contains, map, count_if, arith, Memᴰ,
  String, some, any, length, length-map, length-select, mem_of-map, mem_of-select, mem-select,
  mem-map, select, ap, ◌∙◌,
}
use skip_locked.Postgres.{ok}
use skip_locked.Jobs.{Row, Db, Job, job_of}
use skip_locked.Jobs.Update.{update_where, returning}
use skip_locked.Jobs.Find.{Below, find, find_of_mem, find-update_where}
use skip_locked.Claim.{claimed_row, overflows, update_claimed}

module _ {P : Type 0} (ids : List ℕ) (worker : String) (now : ℕ) (db : Db P) where
  abbrev pub claimed_db : Db P
  claimed_db = record db {
    jobs = update_where (λ r. contains ids r.id) (claimed_row now worker) db.jobs;
  }

  abbrev pub batch : List (Job P)
  batch = map job_of (returning (λ r. contains ids r.id) (claimed_row now worker) db.jobs)

  pub update_claimed-ok :
      {jobs : List (Job P)} {db' : Db P}
      → update_claimed ids worker now db ≡ ok (jobs, db')
      → (jobs ≡ batch) × (db' ≡ claimed_db)
  unfolding update_claimed
  update_claimed-ok e = ground arith

  -- Without a row at the largest `int` the update goes through.
  pub update_claimed-total :
      any (overflows ids) db.jobs ≡ false
      → update_claimed ids worker now db ≡ ok (batch, claimed_db)
  unfolding update_claimed
  update_claimed-total e = rw e

  pub find-claimed_db :
      (n : ℕ) {r : Row P}
      → Below n db.jobs
      → Memᴰ r db.jobs
      → find r.id claimed_db.jobs ≡ some (if contains ids r.id then claimed_row now worker r else r)
  find-claimed_db n {r} b m = ground (
    arith,
    find_of_mem n db.jobs b m,
    find-update_where (λ r. contains ids r.id) (claimed_row now worker) r.id db.jobs (λ r. refl),
  )

  pub length-batch : length batch ≡ count_if (λ r. contains ids r.id) db.jobs
  length-batch =
      let hit : Row P → Bool = λ r. contains ids r.id in
      omega (
        arith,
        length-map (job_of {P = P}) (returning hit (claimed_row now worker) db.jobs),
        length-map (claimed_row now worker) (select hit db.jobs),
        length-select hit db.jobs,
      )

  pub mem_of-batch :
      {j : Job P}
      → Memᴰ j batch
      → (r : Row P) × Memᴰ r db.jobs
        × (contains ids r.id ≡ true)
        × (j ≡ job_of (claimed_row now worker r))
  mem_of-batch m =
      let hit : Row P → Bool = λ r. contains ids r.id in
      let (s, ms, es) = mem_of-map job_of (returning hit (claimed_row now worker) db.jobs) m in
      let (r, mr, er) = mem_of-map (claimed_row now worker) (select hit db.jobs) ms in
      let (t, h) = mem_of-select hit db.jobs mr in (r, t, h, es ∙ ap job_of er)

  pub batch-mem :
      {r : Row P}
      → Memᴰ r db.jobs
      → contains ids r.id ≡ true
      → Memᴰ (job_of (claimed_row now worker r)) batch
  batch-mem m h =
      let hit : Row P → Bool = λ r. contains ids r.id in
      mem-map job_of (returning hit (claimed_row now worker) db.jobs)
        (mem-map (claimed_row now worker) (select hit db.jobs) (mem-select hit db.jobs m h))
