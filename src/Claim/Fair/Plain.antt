-- ===== src/Claim/Fair/Plain.antt =====
-- Where the cap lets everything through, `fair_claim` is `claim_batch` with four times the limit.
use skip_locked.Prelude.{
  ℕ, ◌*◌, ◌≤◌, ◌≡◌, sym, ◌∙◌, subst, List, [], Bool, true, Option, String, map, count_if, arith,
  count_if-map, count_if-perm, contains, Memᴰ, Bool-cases, inl, inr, mem-map,
}
use skip_locked.Prelude.Int.{ℤ, pos, fits_i64}
use skip_locked.Postgres.OrderBy.{OrderBy, mem-sort}
use skip_locked.Postgres.Json.{Json}
use skip_locked.Jobs.{Row, Db}
use skip_locked.Jobs.Find.{Below}
use skip_locked.Claim.{lock_rows, claim_batch_sql}
use skip_locked.Claim.Same.{Same, update_claimed-Same}
use skip_locked.Claim.Picked.{with_key_of_mem}
use skip_locked.Claim.Batch.{locked_ids, locked-free, row_id}
use skip_locked.Claim.Fair.{
  Candidate, same_carrier, carrier_of, candidate, fair_ids, fair_claim_sql,
}
use skip_locked.Claim.Fair.Rank.{size_of, of_carrier, kept_all}
use skip_locked.Claim.Fair.Winners.{candidate_id, winners, fair_ids-winners, fair_ids-mem}

module _ {P : Type 0} (json : Json P) (by_run_at : OrderBy (Row P) (λ r. r.run_at))
    (window : OrderBy Candidate (λ c. c.run_at)) (held : ℕ → Bool) (kinds : List String) (size : ℕ)
    (tenant_cap : ℤ) (now : ℕ) (db : Db P) (n : ℕ) (b : Below n db.jobs) where
  abbrev rows : List (Row P)
  rows = lock_rows by_run_at held kinds (size * 4) now db

  module _
      (few : (c : Option String)
        → count_if (λ r. same_carrier (carrier_of json r.payload) c) rows
          ≤ size_of tenant_cap) where
    all_win :
        winners json by_run_at window held kinds (size * 4) tenant_cap now db
        ≡ window.sort (map (candidate json) rows)
    unfolding winners
    all_win =
        let locked = map (candidate json) rows in
        kept_all tenant_cap [] (window.sort locked) (λ c. omega (
          arith,
          few c,
          count_if-perm (of_carrier c) (window.sort-perm locked),
          count_if-map (of_carrier c) (candidate json) rows,
        ))

    fair_ids-Same :
        Same
          (fair_ids json by_run_at window held kinds (size * 4) tenant_cap now db)
          (locked_ids by_run_at held kinds (size * 4) now db)
          db.jobs
    fair_ids-Same r m =
        let fair = fair_ids json by_run_at window held kinds (size * 4) tenant_cap now db in
        let plain = locked_ids by_run_at held kinds (size * 4) now db in
        elim (Bool-cases (contains fair r.id)) [
          | inl t ↦
              t
              ∙ sym (
                  with_key_of_mem row_id rows
                    (fair_ids-mem json by_run_at window held kinds (size * 4) tenant_cap now n db b
                      m t).0)
          | inr f ↦ elim (Bool-cases (contains plain r.id)) [
            | inr g ↦ f ∙ sym g
            | inl g ↦
                let in_rows = (locked-free by_run_at held kinds (size * 4) now n db b m g).0 in
                let won : Memᴰ (candidate json r)
                    (winners json by_run_at window held kinds (size * 4) tenant_cap now db) =
                  subst (Memᴰ (candidate json r)) (sym all_win)
                    (mem-sort window _ (mem-map (candidate json) rows in_rows)) in
                let hit =
                  with_key_of_mem candidate_id
                    (winners json by_run_at window held kinds (size * 4) tenant_cap now db) won in
                ground (
                  arith,
                  f,
                  hit,
                  fair_ids-winners json by_run_at window held kinds (size * 4) tenant_cap now db,
                )
          ]
        ]

    -- If no carrier has more rows in the window than the cap, a fair claim answers and does the same as a plain one
    -- with four times its batch argument as the limit.
    pub fair_claim-plain :
        (worker : String)
        → fits_i64 (pos (size * 4)) ≡ true
        → fair_claim_sql json by_run_at window held kinds (pos size) tenant_cap worker now db
          ≡ claim_batch_sql by_run_at held kinds (pos (size * 4)) worker now db
    unfolding fair_claim_sql claim_batch_sql
    fair_claim-plain worker fits = rw fits (
        update_claimed-Same (fair_ids json by_run_at window held kinds (size * 4) tenant_cap now db)
          (locked_ids by_run_at held kinds (size * 4) now db) worker now db fair_ids-Same)
