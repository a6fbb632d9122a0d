-- ===== src/Service/Rows.antt =====
-- What a claim and a completion do to the running rows of a worker.
use mathlib.Core.List.Memᴰ.{head, tail}
use skip_locked.Prelude.{
  ℕ, ◌+◌, ◌≤◌, ◌≡◌, refl, List, [], ◌∷◌, Bool, true, arith, count_if, Memᴰ, contains, map, ◌==◌,
  if◌then◌else◌, inl, inr, eq_refl,
}
use skip_locked.Prelude.Int.{ℤ, pos, negsuc}
use skip_locked.Postgres.{Result-cases}
use skip_locked.Postgres.OrderBy.{OrderBy}
use skip_locked.Jobs.{Row, Db, job_of, is_ready}
use skip_locked.Jobs.Update.{update_where, returning}
use skip_locked.Enqueue.{done_row}
use skip_locked.Claim.{claim_batch_sql, claimed_row}
use skip_locked.Claim.Batch.{claim_batch_sql-ok, locked_ids, locked-free, Below-Unique}
use skip_locked.Queue.{after}
use skip_locked.Queue.Lawful.{Inv}
use skip_locked.Claimers.Counts.{with_id}
use skip_locked.Claimers.Steps.{answer_of}
use skip_locked.Worker.{WorkerConfig}
use skip_locked.Service.{mine, mine_in, claim_result}

module _ {P : Type 0} (cfg : WorkerConfig) (i : ℕ) where
  mine-le : (rs : List (Row P)) → count_if (mine cfg i) rs ≤ with_id i rs
  mine-le [] = omega arith
  mine-le (r ∷ rs) = ground (arith, mine-le rs)

  pub mine-one : (db : Db P) → Inv db → mine_in cfg i db ≤ 1
  mine-one db v = omega (arith, mine-le db.jobs, Below-Unique db.next_id db.jobs v.fresh i)

  -- Ready rows that the worker claims become its running rows.
  claimed-mine :
      (ids : List ℕ) (now : ℕ) (rs : List (Row P))
      → ((r : Row P) → Memᴰ r rs → contains ids r.id ≡ true → is_ready r.state ≡ true)
      → count_if
          (mine cfg i)
          (update_where (λ r. contains ids r.id) (claimed_row now cfg.worker_id) rs)
        ≡ count_if (mine cfg i) rs
          + count_if
              (λ j. j.id == i)
              (map job_of (returning (λ r. contains ids r.id) (claimed_row now cfg.worker_id) rs))
  claimed-mine ids now [] h = omega arith
  claimed-mine ids now (r ∷ rs) h =
      ground (
        arith,
        h r (head refl),
        eq_refl cfg.worker_id,
        claimed-mine ids now rs (λ s m. h s (tail m)),
      )

  pub claim-mine :
      (order : OrderBy (Row P) (λ r. r.run_at)) (held : ℕ → Bool) (now : ℕ) (db : Db P)
      → Inv db
      → let r = claim_result cfg order held now db in
        mine_in cfg i (after db r) ≡ mine_in cfg i db + count_if (λ j. j.id == i) (answer_of r)
  claim-mine order held now db v = by_limit cfg.batch
    where
      by_limit :
          (n : ℤ)
          → let r = claim_batch_sql order held cfg.kinds n cfg.worker_id now db in
            mine_in cfg i (after db r) ≡ mine_in cfg i db + count_if (λ j. j.id == i) (answer_of r)
      by_limit (negsuc n) = unfold claim_batch_sql in omega arith
      by_limit (pos k) =
          elim (Result-cases (claim_batch_sql order held cfg.kinds (pos k) cfg.worker_id now db)) [
            | inr (e, q) ↦ rw q (omega arith)
            | inl (a, q) ↦ rw q (
                let (ej, ed) = claim_batch_sql-ok order held cfg.kinds k cfg.worker_id now db q in
                rw (ej, ed)
                  (claimed-mine (locked_ids order held cfg.kinds k now db) now db.jobs (λ r m t.
                    ground (
                      arith,
                      (locked-free order held cfg.kinds k now db.next_id db v.fresh m t).1,
                    ))))
          ]

  pub done-mine :
      (id : ℕ) (rs : List (Row P))
      → count_if (mine cfg i) (update_where (λ r. r.id == id) done_row rs)
        ≡ (if id == i then 0 else count_if (mine cfg i) rs)
  done-mine id [] = ground arith
  done-mine id (r ∷ rs) = ground (arith, done-mine id rs)
