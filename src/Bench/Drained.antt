-- ===== src/Bench/Drained.antt =====
-- The loop ends, and has then claimed every free job.
use skip_locked.Prelude.{
  ℕ, zero, suc, ◌+◌, ◌≤◌, ◌<◌, ◌≡◌, refl, List, [], ◌∷◌, Bool, some, String, contains, count_if,
  length, arith, ◌⊎◌, inl, inr, ap, ◌∙◌,
}
use skip_locked.Prelude.Int.{pos}
use skip_locked.Postgres.{ok}
use skip_locked.Postgres.OrderBy.{OrderBy}
use skip_locked.Jobs.{Row, Db}
use skip_locked.Jobs.Find.{Below, update_where-Below}
use skip_locked.Claim.{free, claimed_row, claim_batch, claim_batch_sql}
use skip_locked.Claim.Batch.{locked_ids, length-claim_batch}
use skip_locked.Claim.Effect.{batch, claimed_db, update_claimed-total}
use skip_locked.Bench.{claim_until_empty}
use skip_locked.Bench.Claimed.{full, free-update, full-update, claim-room, free-locked}

pub List-cases : {A : Type 0} (xs : List A) → (xs ≡ []) ⊎ ((y : A) × (ys : List A) × (xs ≡ y ∷ ys))
List-cases [] = inl refl
List-cases (y ∷ ys) = inr (y, ys, refl)

module _ {P : Type 0} (by_run_at : OrderBy (Row P) (λ r. r.run_at)) (held : ℕ → Bool)
    (kinds : List String) (k now n : ℕ) (worker : String) where
  pub sql-room :
      (db : Db P)
      → Below n db.jobs
      → count_if (full held now kinds) db.jobs ≡ 0
      → let ids = locked_ids by_run_at held kinds k now db in
        claim_batch_sql by_run_at held kinds (pos k) worker now db
        ≡ ok (batch ids worker now db, claimed_db ids worker now db)
  unfolding claim_batch_sql
  sql-room db b h =
      update_claimed-total (locked_ids by_run_at held kinds k now db) worker now db
        (claim-room by_run_at held kinds k now n db b h)

  -- With a fuel above the number of free jobs, a limit of at least 1, room for an attempt in every free row and no
  -- failed round trip, the loop ends, and the jobs that it claimed are as many as were free.
  pub claim_until_empty-total :
      (fuel claimed : ℕ) (db : Db P)
      → 1 ≤ k
      → Below n db.jobs
      → count_if (full held now kinds) db.jobs ≡ 0
      → count_if (free held now kinds) db.jobs < fuel
      → (claim_until_empty by_run_at held fuel kinds
          (pos k)
          worker
          claimed
          (record { db = db; clock = now; wire = [] })).0
        ≡ ok (some (claimed + count_if (free held now kinds) db.jobs))
  unfolding claim_until_empty claim_batch
  claim_until_empty-total zero claimed db one b h f = absurd (omega arith)
  claim_until_empty-total (suc fuel) claimed db one b h f =
      let ids = locked_ids by_run_at held kinds k now db in
      let q = sql-room db b h in
      let len = length-claim_batch by_run_at held kinds k worker now db n b q in
      elim (List-cases (batch ids worker now db)) [
        | inl e ↦ rw (q, e) (ap (λ c. ok (some c)) (omega (arith, len, ap length e, one)))
        | inr (j, js, e) ↦
            let less = free-update held now kinds ids worker db.jobs in
            let taken = free-locked by_run_at held kinds k now n db b in
            let rest =
              claim_until_empty-total fuel (claimed + suc (length js))
                (claimed_db ids worker now db) one
                (update_where-Below n (λ r. contains ids r.id) (claimed_row now worker) db.jobs
                  (λ r. refl) b)
                (omega (arith, h, full-update held now kinds ids worker db.jobs))
                (omega (arith, f, less, taken, len, ap length e)) in
            rw (q, e) (rest ∙ ap (λ c. ok (some c)) (omega (arith, less, taken, len, ap length e)))
      ]
