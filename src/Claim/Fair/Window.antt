-- ===== src/Claim/Fair/Window.antt =====
-- How much of its window `fair_claim` takes where the cap lets everything through.
use skip_locked.Prelude.{
  ℕ, ◌*◌, ◌≤◌, ◌≡◌, ap, List, [], Bool, true, Option, String, map, count_if, arith, min,
  count_if-map, count_if-perm, ◌&&◌, length, count_if-true, length-perm, length-map,
}
use skip_locked.Prelude.Int.{ℤ, pos}
use skip_locked.Postgres.{ok}
use skip_locked.Postgres.OrderBy.{OrderBy}
use skip_locked.Postgres.Json.{Json}
use skip_locked.Jobs.{Row, Db, Job}
use skip_locked.Jobs.Find.{Below}
use skip_locked.Claim.{free, lock_rows}
use skip_locked.Claim.Picked.{with_key, count_if-with_key}
use skip_locked.Claim.Effect.{length-batch}
use skip_locked.Claim.Batch.{length-lock_rows}
use skip_locked.Claim.Fair.{Candidate, same_carrier, carrier_of, candidate, fair_claim_sql}
use skip_locked.Claim.Fair.Rank.{size_of, of_carrier, kept_all}
use skip_locked.Claim.Fair.Winners.{candidate_id, winners, others, winners-perm}
use skip_locked.Claim.Fair.Cap.{candidates-Unique, batch_eq}

module _ {P : Type 0} (json : Json P) (by_run_at : OrderBy (Row P) (λ r. r.run_at))
    (window : OrderBy Candidate (λ c. c.run_at)) (held : ℕ → Bool) where
  module _ (kinds : List String) (size : ℕ) (tenant_cap : ℤ) (worker : String) (now : ℕ) (db : Db P)
      (n : ℕ) (b : Below n db.jobs) {jobs : List (Job P)} {db' : Db P}
      (claimed : fair_claim_sql json by_run_at window held kinds (pos size) tenant_cap worker now db
        ≡ ok (jobs, db')) where
    abbrev rows : List (Row P)
    rows = lock_rows by_run_at held kinds (size * 4) now db

    -- `batch` does not bound the answer: where no carrier has more rows in the window than the cap,
    -- the whole window is claimed, up to four times `batch`.
    pub fair_claim-window :
        ((c : Option String)
          → count_if (λ r. same_carrier (carrier_of json r.payload) c) rows ≤ size_of tenant_cap)
        → length jobs ≡ min (size * 4) (count_if (free held now kinds) db.jobs)
    unfolding winners
    fair_claim-window few =
        let won = winners json by_run_at window held kinds (size * 4) tenant_cap now db in
        let locked = map (candidate json) rows in
        let all_kept : won ≡ window.sort locked = kept_all tenant_cap [] (window.sort locked) (λ c.
          omega (
            arith,
            few c,
            count_if-perm (of_carrier c) (window.sort-perm locked),
            count_if-map (of_carrier c) (candidate json) rows,
          )) in
        omega (
          arith,
          ap length (
              batch_eq json by_run_at window held kinds size tenant_cap worker now db n b
                {jobs = jobs} {db' = db'} claimed),
          length-batch (map candidate_id won) worker now db,
          count_if-map (λ d. true && with_key candidate_id won d) (candidate json) db.jobs,
          count_if-with_key candidate_id won
              (others json by_run_at window held kinds (size * 4) tenant_cap now db)
              (winners-perm json by_run_at window held kinds (size * 4) tenant_cap now db)
              (candidates-Unique json by_run_at window held kinds size tenant_cap worker now db n b
                {jobs = jobs} {db' = db'} claimed)
              (λ d. true),
          count_if-true won,
          ap length all_kept,
          length-perm (window.sort-perm locked),
          length-map (candidate json) rows,
          length-lock_rows by_run_at held kinds (size * 4) now db,
        )
