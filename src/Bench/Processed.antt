-- ===== src/Bench/Processed.antt =====
-- The loop that claims and completes ends, and every job that was free is done.
use skip_locked.Prelude.{
  ℕ, zero, suc, ◌+◌, ◌≤◌, ◌<◌, ◌≡◌, refl, List, ◌∷◌, Bool, some, String, contains, count_if, length,
  arith, inl, inr, ap, ◌∙◌, sym,
}
use skip_locked.Prelude.Int.{pos}
use skip_locked.Postgres.{ok}
use skip_locked.Postgres.OrderBy.{OrderBy}
use skip_locked.Jobs.{Row, Db}
use skip_locked.Jobs.Update.{update_where, update_where_none}
use skip_locked.Jobs.Find.{Below, update_where-Below}
use skip_locked.Claim.{free, claimed_row, claim_batch}
use skip_locked.Claim.Batch.{locked_ids, locked-free, length-claim_batch}
use skip_locked.Claim.Effect.{batch, claimed_db, length-batch}
use skip_locked.Bench.Loops.{process_until_empty}
use skip_locked.Bench.Claimed.{full, free-locked}
use skip_locked.Bench.Drained.{List-cases, sql-room}
use skip_locked.Bench.Turn.{
  update-update, quiet, processed_row, after_turn, free-processed, full-processed, spent,
}

module _ {P : Type 0} (by_run_at : OrderBy (Row P) (λ r. r.run_at)) (held : ℕ → Bool)
    (kinds : List String) (k now n : ℕ) (worker : String) where
  -- With a fuel above the number of free jobs, a limit of at least 1, room for an attempt in every free row and no
  -- failed round trip, the loop ends and answers the number of free jobs; each of these is then claimed once and done,
  -- and every other row is as it was.
  pub process_until_empty-total :
      (fuel done : ℕ) (db : Db P)
      → 1 ≤ k
      → Below n db.jobs
      → count_if (full held now kinds) db.jobs ≡ 0
      → count_if (free held now kinds) db.jobs < fuel
      → process_until_empty by_run_at held fuel kinds (pos k) worker done (quiet db now) ≡ (
        ok (some (done + count_if (free held now kinds) db.jobs)),
        quiet
            (record db {
              jobs = update_where (free held now kinds) (processed_row now worker) db.jobs;
            })
            now,
      )
  unfolding process_until_empty claim_batch
  process_until_empty-total zero done db one b h f = absurd (omega arith)
  process_until_empty-total (suc fuel) done db one b h f =
      let ids = locked_ids by_run_at held kinds k now db in
      let q = sql-room by_run_at held kinds k now n worker db b h in
      let len = length-claim_batch by_run_at held kinds k worker now db n b q in
      let all = update_where (free held now kinds) (processed_row now worker) db.jobs in
      let hit : Row P → Bool = λ r. contains ids r.id in
      elim (List-cases (batch ids worker now db)) [
        | inl e ↦
            let none_free : count_if (free held now kinds) db.jobs ≡ 0 =
              omega (arith, len, ap length e, one) in
            let same : update_where hit (claimed_row now worker) db.jobs ≡ all =
              update_where_none hit (claimed_row now worker) db.jobs
                (omega (arith, ap length e, length-batch ids worker now db))
              ∙ sym (
                  update_where_none (free held now kinds) (processed_row now worker) db.jobs
                    none_free) in
            rw (q, e)
              (ap (λ c. (ok (some c), quiet (claimed_db ids worker now db) now))
                  (omega (arith, none_free))
                ∙ ap
                    (λ rs. (
                      ok (some (done + count_if (free held now kinds) db.jobs)),
                      quiet (record db { jobs = rs }) now,
                    ))
                    same)
        | inr (j, js, e) ↦
            let turned : Db P = record db {
              jobs = update_where hit (processed_row now worker) db.jobs;
            } in
            let less = free-processed ids worker now held kinds db.jobs in
            let taken = free-locked by_run_at held kinds k now n db b in
            let rest =
              process_until_empty-total fuel (done + suc (length js)) turned one
                (update_where-Below n hit (processed_row now worker) db.jobs (λ r. refl) b)
                (omega (arith, h, full-processed ids worker now held kinds db.jobs))
                (omega (arith, f, less, taken, len, ap length e)) in
            let merged : update_where (free held now kinds) (processed_row now worker) turned.jobs
                ≡ all =
              update-update hit (free held now kinds) (free held now kinds)
                (processed_row now worker) (processed_row now worker) (processed_row now worker)
                db.jobs
                (λ r m.
                  spent ids worker now held kinds r (hit r)
                    (λ t. (locked-free by_run_at held kinds k now n db b m t).1)) in
            rw (q, e)
              (after_turn ids worker now
                  (process_until_empty by_run_at held fuel kinds (pos k) worker
                    (done + suc (length js)))
                  db (j ∷ js) e
                ∙ rest
                ∙ ap
                    (λ c. (
                      ok (some c),
                      quiet
                          (record turned {
                            jobs =
                                update_where (free held now kinds) (processed_row now worker)
                                  turned.jobs;
                          })
                          now,
                    ))
                    (omega (arith, less, taken, len, ap length e))
                ∙ ap
                    (λ rs. (
                      ok (some (done + count_if (free held now kinds) db.jobs)),
                      quiet (record db { jobs = rs }) now,
                    ))
                    merged)
      ]
