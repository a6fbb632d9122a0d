-- ===== src/Queue/Moves.antt =====
-- What an insert, a claim and any update by a test do to one job.
use skip_locked.Prelude.{
  ℕ, ◌*◌, ◌≡◌, refl, List, Bool, true, false, some, String, arith, ◌==◌, ==_iff, Memᴰ, Bool-cases,
  Option-cases, inl, inr,
}
use skip_locked.Prelude.Int.{ℤ, pos, negsuc}
use skip_locked.Postgres.{Result-cases}
use skip_locked.Postgres.OrderBy.{OrderBy}
use skip_locked.Postgres.Json.{Json}
use skip_locked.Jobs.{Row, Db}
use skip_locked.Jobs.Update.{update_where}
use skip_locked.Jobs.Find.{find, find-mem, find_above, find-update_where}
use skip_locked.Enqueue.{insert_row}
use skip_locked.Claim.{claim_batch_sql, claimed_row, claimable}
use skip_locked.Claim.Batch.{claim_batch_sql-ok, locked-free}
use skip_locked.Claim.Fair.{Candidate, fair_claim_sql}
use skip_locked.Claim.Fair.Winners.{fair_claim_sql-ok, fair_ids-mem}
use skip_locked.Queue.{Op, claim, claim_fairly, after}
use skip_locked.Queue.Lawful.{IsLawful, Inv}
use skip_locked.Queue.Conserved.{IsWhole}
use skip_locked.Queue.Lifecycle.{
  missing, waiting, attempts_of, stage_row, stage_of, Goes, stays, claimed, claimed_fairly,
}

module _ {P : Type 0} (i : ℕ) where
  -- An update goes as it does with the row of the job.
  pub update-Goes :
      (op : Op P) (p : Row P → Bool) (f : Row P → Row P) (db : Db P)
      → ((r : Row P) → (f r).id ≡ r.id)
      → ((r : Row P)
          → Memᴰ r db.jobs
          → r.id ≡ i
          → p r ≡ true
          → Goes i op (stage_row r) (stage_row (f r)))
      → Goes i op (stage_of i db) (stage_of i (record db { jobs = update_where p f db.jobs }))
  update-Goes op p f db k h = elim (Option-cases (find i db.jobs)) [
    | inl e ↦ rw (find-update_where p f i db.jobs k, e) (stays op _)
    | inr (r, e) ↦ elim (Bool-cases (p r)) [
      | inr u ↦ rw (find-update_where p f i db.jobs k, e, u) (stays op _)
      | inl t ↦
          let (m, key) = find-mem i db.jobs e in
          rw (find-update_where p f i db.jobs k, e, t) (h r m key t)
    ]
  ]

  -- A row of a lawful table is in one of three stages.
  pub attempts_of-row : (r : Row P) → IsLawful r → attempts_of (stage_row r) ≡ some r.attempts
  attempts_of-row r v = ground (arith, v.alive)

  claimed-stage :
      (now : ℕ) (kinds : List String) (worker : String) (r : Row P)
      → claimable now kinds r ≡ true
      → stage_row r ≡ waiting r.attempts
  claimed-stage now kinds worker r h = ground (arith, h)

  insert-stage : (db : Db P) → Inv db → IsWhole db → db.next_id ≡ i → stage_of i db ≡ missing
  insert-stage db v w e = ground (arith, e, find_above i db.next_id db.jobs v.fresh, w.1 i)

  pub insert-Goes :
      (op : Op P) (kind : String) (payload : P) (run_at : ℕ) (db : Db P)
      → Inv db
      → IsWhole db
      → Goes i op missing (waiting 0)
      → Goes i op (stage_of i db) (stage_of i (after db (insert_row kind payload run_at db)))
  insert-Goes op kind payload run_at db v w go = elim (Bool-cases (db.next_id == i)) [
    | inr f ↦ rw f (stays op _)
    | inl t ↦ rw (t, insert-stage db v w ((==_iff db.next_id i).0 t)) go
  ]

  pub claim-Goes :
      (order : OrderBy (Row P) (λ r. r.run_at)) (held : ℕ → Bool) (kinds : List String) (n : ℤ)
      (worker : String) (now : ℕ) (db : Db P)
      → Inv db
      → Goes i
          (claim order held kinds n worker)
          (stage_of i db)
          (stage_of i (after db (claim_batch_sql order held kinds n worker now db)))
  claim-Goes order held kinds (negsuc n) worker now db v = unfold claim_batch_sql in stays _ _
  claim-Goes order held kinds (pos k) worker now db v =
      elim (Result-cases (claim_batch_sql order held kinds (pos k) worker now db)) [
        | inr (e, q) ↦ rw q (stays _ _)
        | inl (a, q) ↦ rw q (
            rw (claim_batch_sql-ok order held kinds k worker now db q).1 (
              update-Goes _ _ (claimed_row now worker) db (λ r. refl)
                (λ r m key t.
                  let open_row = locked-free order held kinds k now db.next_id db v.fresh m t in
                  let unheld : held i ≡ false = rw (← key) (ground (arith, open_row)) in
                  rw (claimed-stage now kinds worker r (ground (arith, open_row)))
                    (claimed order held kinds (pos k) worker r.attempts unheld))))
      ]

  pub fair-Goes :
      (json : Json P) (order : OrderBy (Row P) (λ r. r.run_at))
      (window : OrderBy Candidate (λ c. c.run_at)) (held : ℕ → Bool) (kinds : List String)
      (size share : ℤ) (worker : String) (now : ℕ) (db : Db P)
      → Inv db
      → Goes i (claim_fairly json order window held kinds size share worker) (stage_of i db) (
          stage_of i
            (after db (fair_claim_sql json order window held kinds size share worker now db)))
  fair-Goes json order window held kinds (negsuc n) share worker now db v =
      let same : after db
            (fair_claim_sql json order window held kinds (negsuc n) share worker now db)
          ≡ db =
        unfold fair_claim_sql in ground arith in
      rw same (stays _ _)
  fair-Goes json order window held kinds (pos size) share worker now db v =
      elim (Result-cases
        (fair_claim_sql json order window held kinds (pos size) share worker now db)) [
          | inr (e, q) ↦ rw q (stays _ _)
          | inl (a, q) ↦ rw q (
              rw (fair_claim_sql-ok json order window held kinds size share worker now db q).1 (
                update-Goes _ _ (claimed_row now worker) db (λ r. refl)
                  (λ r m key t.
                    let (_, open_row) =
                      fair_ids-mem json order window held kinds (size * 4) share now db.next_id db
                        v.fresh m t in
                    let unheld : held i ≡ false = rw (← key) (ground (arith, open_row)) in
                    rw (claimed-stage now kinds worker r (ground (arith, open_row))) (
                      claimed_fairly json order window held kinds (pos size) share worker r.attempts
                        unheld))))
        ]
