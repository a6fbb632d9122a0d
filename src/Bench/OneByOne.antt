-- ===== src/Bench/OneByOne.antt =====
-- The loop of bench_claim_latency.rs is that of bench_throughput.rs with batches of one job.
use skip_locked.Prelude.{
  ℕ, zero, suc, ◌+◌, ◌≤◌, ◌≡◌, refl, List, [], ◌∷◌, Option, some, String, length, arith, inl, inr,
  ap, Bool, ◌==◌, contains,
}
use skip_locked.Prelude.Int.{pos}
use skip_locked.Postgres.{Error, Result, ok, err, Result-cases}
use skip_locked.Postgres.OrderBy.{OrderBy}
use skip_locked.Jobs.{Row, Db, Job}
use skip_locked.Jobs.Find.{Below, update_where-Below}
use skip_locked.Session.{Wire, delivered, dropped, reply_lost, World, M, pure, ◌>>◌, continue}
use skip_locked.Enqueue.{mark_done, mark_done_sql, done_row}
use skip_locked.Claim.{claim_batch, claim_batch_sql, claimed_row}
use skip_locked.Claim.Batch.{claim_batch_sql-ok, length-claim_batch, locked_ids}
use skip_locked.Bench.Loops.{mark_all, process_until_empty}
use skip_locked.Bench.Latency.{latency_loop}

module _ {P : Type 0} where
  same_continue :
      {A B : Type 0} (r : Result A) (f g : A → M P B) (w : World P)
      → ((a : A) → r ≡ ok a → f a w ≡ g a w)
      → continue r f w ≡ continue r g w
  same_continue (ok a) f g w h = h a refl
  same_continue (err e) f g w h = refl

  mark_done-Below :
      (n id : ℕ) (db : Db P) (now : ℕ) (ws : List Wire)
      → Below n db.jobs
      → Below n (mark_done id (record { db = db; clock = now; wire = ws })).1.db.jobs
  unfolding mark_done mark_done_sql
  mark_done-Below n id db now [] b =
      update_where-Below n (λ r. r.id == id) done_row db.jobs (λ r. refl) b
  mark_done-Below n id db now (delivered ∷ ws) b =
      update_where-Below n (λ r. r.id == id) done_row db.jobs (λ r. refl) b
  mark_done-Below n id db now (reply_lost ∷ ws) b =
      update_where-Below n (λ r. r.id == id) done_row db.jobs (λ r. refl) b
  mark_done-Below n id db now (dropped ∷ ws) b = b

  module _ (by_run_at : OrderBy (Row P) (λ r. r.run_at)) (held : ℕ → Bool) (kinds : List String)
      (worker : String) (n : ℕ) where
    -- The table keeps its keys, and an answer has one job at most.
    abbrev Short : Result (List (Job P)) → World P → Type 0
    Short r w = Below n w.db.jobs × ((rows : List (Job P)) → r ≡ ok rows → length rows ≤ 1)

    claim-Short :
        (db : Db P) (now : ℕ) (ws : List Wire)
        → Below n db.jobs
        → let (r, w) =
            claim_batch by_run_at held kinds
              (pos 1)
              worker
              (record { db = db; clock = now; wire = ws }) in
          Short r w
    unfolding claim_batch
    claim-Short db now ws b =
        elim (Result-cases (claim_batch_sql by_run_at held kinds (pos 1) worker now db)) [
          | inr (e, q) ↦ raised e q ws
          | inl ((jobs, db'), q) ↦ answered jobs db' q ws
        ]
      where
        raised :
            (e : Error)
            → claim_batch_sql by_run_at held kinds (pos 1) worker now db ≡ err e
            → (ws : List Wire)
            → let (r, w) =
                claim_batch by_run_at held kinds
                  (pos 1)
                  worker
                  (record { db = db; clock = now; wire = ws }) in
              Short r w
        raised e q [] = rw q (b, λ rows h. ground arith)
        raised e q (delivered ∷ ws) = rw q (b, λ rows h. ground arith)
        raised e q (dropped ∷ ws) = (b, λ rows h. ground arith)
        raised e q (reply_lost ∷ ws) = rw q (b, λ rows h. ground arith)

        answered :
            (jobs : List (Job P)) (db' : Db P)
            → claim_batch_sql by_run_at held kinds (pos 1) worker now db ≡ ok (jobs, db')
            → (ws : List Wire)
            → let (r, w) =
                claim_batch by_run_at held kinds
                  (pos 1)
                  worker
                  (record { db = db; clock = now; wire = ws }) in
              Short r w
        answered jobs db' q ws = by_fate ws
          where
            below : Below n db'.jobs
            below = rw (claim_batch_sql-ok by_run_at held kinds 1 worker now db q).1 (
                update_where-Below n (λ r. contains (locked_ids by_run_at held kinds 1 now db) r.id)
                  (claimed_row now worker) db.jobs (λ r. refl) b)

            short :
                (rows : List (Job P))
                → ◌≡◌ {A = Result (List (Job P))} (ok jobs) (ok rows)
                → length rows ≤ 1
            short rows h =
                let e : jobs ≡ rows = cc in
                omega (
                  arith,
                  ap length e,
                  length-claim_batch by_run_at held kinds 1 worker now db n b q,
                )

            by_fate :
                (ws : List Wire)
                → let (r, w) =
                    claim_batch by_run_at held kinds
                      (pos 1)
                      worker
                      (record { db = db; clock = now; wire = ws }) in
                  Short r w
            by_fate [] = rw q (below, short)
            by_fate (delivered ∷ ws) = rw q (below, short)
            by_fate (dropped ∷ ws) = (b, λ rows h. ground arith)
            by_fate (reply_lost ∷ ws) = rw q (below, λ rows h. ground arith)

    -- One turn that claimed a job: the two loops agree if what follows agrees.
    turn-same :
        (j : Job P) (f g : M P (Option ℕ)) (w : World P)
        → Below n w.db.jobs
        → ((w' : World P) → Below n w'.db.jobs → f w' ≡ g w')
        → (mark_done j.id >> f) w ≡ (mark_all (j ∷ []) >> g) w
    unfolding mark_all
    turn-same j f g w b h = elim (Result-cases (mark_done j.id w).0) [
      | inl (u, e) ↦ rw e (h (mark_done j.id w).1 (mark_done-Below n j.id w.db w.clock w.wire b))
      | inr (x, e) ↦ rw e refl
    ]

    by_rows :
        (recorded : ℕ) (f : M P (Option ℕ)) (g : List (Job P) → M P (Option ℕ))
        (rows : List (Job P))
        → length rows ≤ 1
        → (w : World P) → Below n w.db.jobs
        → ((w' : World P) → Below n w'.db.jobs → f w' ≡ g [] w')
        → (elim rows as (λ x. M P (Option ℕ)) [
          | [] ↦ pure (some recorded)
          | j ∷ js ↦ mark_done j.id >> f
        ])
            w
          ≡ (elim rows as (λ x. M P (Option ℕ)) [
            | [] ↦ pure (some recorded)
            | j ∷ js ↦ mark_all (j ∷ js) >> g js
          ])
              w
    by_rows recorded f g [] h w b same = refl
    by_rows recorded f g (j ∷ []) h w b same = turn-same j f (g []) w b same
    by_rows recorded f g (j ∷ k ∷ js) h w b same = absurd (omega arith)

    -- With whatever failures, the loop of the latency benchmark does and answers what the loop of the throughput
    -- benchmark does with a batch of 1, from a table with unique ids.
    pub latency_loop-process_until_empty :
        (fuel recorded : ℕ) (w : World P)
        → Below n w.db.jobs
        → latency_loop by_run_at held fuel kinds worker recorded w
          ≡ process_until_empty by_run_at held fuel kinds (pos 1) worker recorded w
    unfolding latency_loop process_until_empty
    latency_loop-process_until_empty zero recorded w b = refl
    latency_loop-process_until_empty (suc fuel) recorded w b =
        let (below, short) = claim-Short w.db w.clock w.wire b in
        same_continue (claim_batch by_run_at held kinds (pos 1) worker w).0 _ _
          (claim_batch by_run_at held kinds (pos 1) worker w).1
          (λ rows e.
            by_rows recorded (latency_loop by_run_at held fuel kinds worker (suc recorded))
              (λ js.
                process_until_empty by_run_at held fuel kinds (pos 1) worker
                  (recorded + suc (length js)))
              rows (short rows e) (claim_batch by_run_at held kinds (pos 1) worker w).1 below
              (λ w' b'.
                let q : recorded + 1 ≡ suc recorded = omega arith in
                rw q (latency_loop-process_until_empty fuel (suc recorded) w' b')))
