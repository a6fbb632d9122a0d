-- ===== src/Claim/Fair/Winners.antt =====
-- The ids that `fair_claim` updates, as a part of the table.
use mathlib.Core.List.Permᴰ as Perm
use skip_locked.Prelude.{
  ℕ, ◌*◌, ◌≡◌, sym, ap, subst, ◌∙◌, List, [], ◌++◌, Bool, true, String, Permᴰ, map, inl, inr,
  Bool-cases, Memᴰ, contains, append_assoc, map-append, mem_of-map,
}
use skip_locked.Prelude.Int.{ℤ, pos, fits_i64}
use skip_locked.Postgres.{Result, ok, err, bigint_out_of_range}
use skip_locked.Postgres.OrderBy.{OrderBy, mem_of-sort}
use skip_locked.Postgres.Json.{Json}
use skip_locked.Jobs.{Row, Db, Job}
use skip_locked.Jobs.Find.{Below, unique}
use skip_locked.Claim.{free, lock_rows}
use skip_locked.Claim.Picked.{mem_of-contains}
use skip_locked.Claim.Effect.{batch, claimed_db, update_claimed-ok}
use skip_locked.Claim.Batch.{rest_rows, lock_rows-perm, mem_of-lock_rows}
use skip_locked.Claim.Fair.{Candidate, candidate, fair_ids, fair_claim_sql}
use skip_locked.Claim.Fair.Rank.{kept, dropped_out, kept-perm, within_cap-row_numbers, mem_of-kept}

abbrev pub candidate_id : Candidate → ℕ
candidate_id c = c.id

module _ {P : Type 0} (json : Json P) (by_run_at : OrderBy (Row P) (λ r. r.run_at))
    (window : OrderBy Candidate (λ c. c.run_at)) (held : ℕ → Bool) where
  unfoldable pub winners : List String → ℕ → ℤ → ℕ → Db P → List Candidate
  winners kinds k tenant_cap now db =
      kept tenant_cap []
        (window.sort (map (candidate json) (lock_rows by_run_at held kinds k now db)))

  pub others : List String → ℕ → ℤ → ℕ → Db P → List Candidate
  others kinds k tenant_cap now db =
      dropped_out tenant_cap []
        (window.sort (map (candidate json) (lock_rows by_run_at held kinds k now db)))
      ++ map (candidate json) (rest_rows by_run_at held kinds k now db)

  pub fair_ids-winners :
      (kinds : List String) (k : ℕ) (tenant_cap : ℤ) (now : ℕ) (db : Db P)
      → fair_ids json by_run_at window held kinds k tenant_cap now db
        ≡ map candidate_id (winners kinds k tenant_cap now db)
  unfolding fair_ids winners
  fair_ids-winners kinds k tenant_cap now db =
      within_cap-row_numbers tenant_cap []
        (window.sort (map (candidate json) (lock_rows by_run_at held kinds k now db)))

  pub winners-perm :
      (kinds : List String) (k : ℕ) (tenant_cap : ℤ) (now : ℕ) (db : Db P)
      → Permᴰ
          (map (candidate json) db.jobs)
          (winners kinds k tenant_cap now db ++ others kinds k tenant_cap now db)
  unfolding winners others
  winners-perm kinds k tenant_cap now db =
      let locked = lock_rows by_run_at held kinds k now db in
      let rest = map (candidate json) (rest_rows by_run_at held kinds k now db) in
      let ranked = window.sort (map (candidate json) locked) in
      subst (Permᴰ (map (candidate json) db.jobs))
        (append_assoc (kept tenant_cap [] ranked) (dropped_out tenant_cap [] ranked) rest)
        (Perm.trans (Perm.map (candidate json) (lock_rows-perm by_run_at held kinds k now db)) (
          subst
            (λ xs.
              Permᴰ xs ((kept tenant_cap [] ranked ++ dropped_out tenant_cap [] ranked) ++ rest))
            (sym (map-append (candidate json) locked (rest_rows by_run_at held kinds k now db)))
            (Perm.append_right rest (
              Perm.trans (window.sort-perm (map (candidate json) locked))
                (kept-perm tenant_cap [] ranked)))))

  pub fair_claim_sql-ok :
      (kinds : List String) (size : ℕ) (tenant_cap : ℤ) (worker : String) (now : ℕ) (db : Db P)
      {jobs : List (Job P)} {db' : Db P}
      → fair_claim_sql json by_run_at window held kinds (pos size) tenant_cap worker now db
        ≡ ok (jobs, db')
      → let ids = fair_ids json by_run_at window held kinds (size * 4) tenant_cap now db in
        (jobs ≡ batch ids worker now db) × (db' ≡ claimed_db ids worker now db)
  unfolding fair_claim_sql
  fair_claim_sql-ok kinds size tenant_cap worker now db {jobs = jobs'} {db' = db''} e =
      elim (Bool-cases (fits_i64 (pos (size * 4)))) [
        | inl t ↦
            update_claimed-ok
              (fair_ids json by_run_at window held kinds (size * 4) tenant_cap now db) worker now db
              (rw t at e)
        | inr f ↦
            let e' : ◌≡◌ {A = Result (List (Job P) × Db P)} (err bigint_out_of_range)
                (ok (jobs', db'')) =
              rw f at e in
            cc
      ]

  -- An id that is within the cap is that of a row of the window.
  pub fair_ids-mem :
      (kinds : List String) (k : ℕ) (tenant_cap : ℤ) (now n : ℕ) (db : Db P) {r : Row P}
      → Below n db.jobs
      → Memᴰ r db.jobs
      → contains (fair_ids json by_run_at window held kinds k tenant_cap now db) r.id ≡ true
      → Memᴰ r (lock_rows by_run_at held kinds k now db) × (free held now kinds r ≡ true)
  unfolding winners
  fair_ids-mem kinds k tenant_cap now n db {r} b m h =
      let locked = lock_rows by_run_at held kinds k now db in
      let h' : contains (map candidate_id (winners kinds k tenant_cap now db)) r.id ≡ true =
        rw (fair_ids-winners kinds k tenant_cap now db) at h in
      let (c, mc, ec) = mem_of-contains candidate_id (winners kinds k tenant_cap now db) r.id h' in
      let in_window = mem_of-sort window _ (mem_of-kept tenant_cap [] _ mc) in
      let (q, mq, eq) = mem_of-map (candidate json) locked in_window in
      let (mj, f) = mem_of-lock_rows by_run_at held kinds k now db mq in
      let same : q ≡ r = unique n db.jobs b mj m (sym (ap candidate_id eq) ∙ ec) in
      (subst (λ x. Memᴰ x locked) same mq, subst (λ x. free held now kinds x ≡ true) same f)
