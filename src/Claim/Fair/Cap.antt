-- ===== src/Claim/Fair/Cap.antt =====
-- `fair_claim` gives each carrier its share of the window, up to the cap.
use skip_locked.Prelude.{
  ℕ, ◌*◌, ◌≡◌, ap, subst, List, [], Bool, true, Option, String, select, map, count_if, arith, min,
  some, Memᴰ, count_if-map, count_if-select, count_if-perm, contains, ◌&&◌, ◌==◌,
}
use skip_locked.Prelude.Int.{ℤ, pos}
use skip_locked.Postgres.{ok}
use skip_locked.Postgres.OrderBy.{OrderBy}
use skip_locked.Postgres.Json.{Json}
use skip_locked.Jobs.{Row, Db, Job, job_of}
use skip_locked.Jobs.Update.{returning}
use skip_locked.Jobs.Find.{Below, find}
use skip_locked.Claim.{free, lock_rows, claimed_row}
use skip_locked.Claim.Picked.{Unique, with_key, count_if-with_key}
use skip_locked.Claim.Effect.{batch, mem_of-batch, find-claimed_db}
use skip_locked.Claim.Batch.{Below-Unique}
use skip_locked.Claim.Fair.{
  Candidate, same_carrier, carrier_of, candidate, fair_ids, fair_claim_sql,
}
use skip_locked.Claim.Fair.Rank.{size_of, of_carrier, count_if-kept}
use skip_locked.Claim.Fair.Winners.{
  candidate_id, winners, others, fair_ids-winners, winners-perm, fair_claim_sql-ok, fair_ids-mem,
}

module _ {P : Type 0} (json : Json P) (by_run_at : OrderBy (Row P) (λ r. r.run_at))
    (window : OrderBy Candidate (λ c. c.run_at)) (held : ℕ → Bool) where
  module _ (kinds : List String) (size : ℕ) (tenant_cap : ℤ) (worker : String) (now : ℕ) (db : Db P)
      (n : ℕ) (b : Below n db.jobs) {jobs : List (Job P)} {db' : Db P}
      (claimed : fair_claim_sql json by_run_at window held kinds (pos size) tenant_cap worker now db
        ≡ ok (jobs, db')) where
    abbrev pub window_rows : List (Row P)
    window_rows = lock_rows by_run_at held kinds (size * 4) now db

    pub candidates-Unique : Unique candidate_id (map (candidate json) db.jobs)
    candidates-Unique i = omega (
      arith,
      count_if-map (λ c. candidate_id c == i) (candidate json) db.jobs,
      Below-Unique n db.jobs b i,
    )

    pub batch_eq :
        jobs
        ≡ batch
            (map candidate_id
              (winners json by_run_at window held kinds (size * 4) tenant_cap now db))
            worker
            now
            db
    batch_eq =
        rw (← fair_ids-winners json by_run_at window held kinds (size * 4) tenant_cap now db) (
          (fair_claim_sql-ok json by_run_at window held kinds size tenant_cap worker now db
            claimed).0)

    count_if-winners :
        (c : Option String)
        → count_if
            (of_carrier c)
            (winners json by_run_at window held kinds (size * 4) tenant_cap now db)
          ≡ min
              (size_of tenant_cap)
              (count_if (λ r. same_carrier (carrier_of json r.payload) c) window_rows)
    unfolding winners
    count_if-winners c =
        let locked = map (candidate json) window_rows in
        omega (
          arith,
          count_if-kept c tenant_cap [] (window.sort locked),
          count_if-perm (of_carrier c) (window.sort-perm locked),
          count_if-map (of_carrier c) (candidate json) window_rows,
        )

    -- Each carrier gets as many jobs as it has rows in the window, up to the cap: a noisy one no
    -- more, and a quiet one no fewer. Rows without a carrier count as one carrier.
    pub fair_claim-share :
        (c : Option String)
        → count_if (λ j. same_carrier (carrier_of json j.payload) c) jobs
          ≡ min
              (size_of tenant_cap)
              (count_if (λ r. same_carrier (carrier_of json r.payload) c) window_rows)
    fair_claim-share c =
        let won = winners json by_run_at window held kinds (size * 4) tenant_cap now db in
        let mine : Row P → Bool = λ r. same_carrier (carrier_of json r.payload) c in
        let hit : Row P → Bool = λ r. contains (map candidate_id won) r.id in
        let locked = map (candidate json) window_rows in
        omega (
          arith,
          ap (count_if (λ j. same_carrier (carrier_of json j.payload) c)) batch_eq,
          count_if-map (λ j. same_carrier (carrier_of json j.payload) c) job_of
              (returning hit (claimed_row now worker) db.jobs),
          count_if-map mine (claimed_row now worker) (select hit db.jobs),
          count_if-select mine hit db.jobs,
          count_if-map (λ d. of_carrier c d && with_key candidate_id won d) (candidate json)
              db.jobs,
          count_if-with_key candidate_id won
              (others json by_run_at window held kinds (size * 4) tenant_cap now db)
              (winners-perm json by_run_at window held kinds (size * 4) tenant_cap now db)
              candidates-Unique (of_carrier c),
          count_if-winners c,
        )

    -- Every job returned is a free row of the window, and the worker now holds it.
    pub fair_claim-jobs :
        {j : Job P}
        → Memᴰ j jobs
        → (r : Row P) × Memᴰ r window_rows
          × (free held now kinds r ≡ true)
          × (j ≡ job_of (claimed_row now worker r))
          × (find j.id db'.jobs ≡ some (claimed_row now worker r))
    fair_claim-jobs {j} m =
        let ids = fair_ids json by_run_at window held kinds (size * 4) tenant_cap now db in
        let (ej, ed) =
          fair_claim_sql-ok json by_run_at window held kinds size tenant_cap worker now db
            claimed in
        let (r, mr, h, e) = mem_of-batch ids worker now db (subst (Memᴰ j) ej m) in
        let (l, f) =
          fair_ids-mem json by_run_at window held kinds (size * 4) tenant_cap now n db b mr h in
        (r, l, f, e, ground (arith, ed, e, find-claimed_db ids worker now db n b mr))
