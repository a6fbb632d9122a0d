-- ===== src/Queue/Steps.antt =====
-- Every statement keeps the invariant.
use skip_locked.Prelude.{
  ℕ, ◌*◌, ◌≡◌, refl, List, Bool, true, String, arith, Memᴰ, ◌==◌, inl, inr, contains, not,
}
use skip_locked.Prelude.Int.{ℤ, pos, negsuc}
use skip_locked.Postgres.{Result-cases}
use skip_locked.Postgres.OrderBy.{OrderBy}
use skip_locked.Postgres.Json.{Json}
use skip_locked.Jobs.{Row, Db}
use skip_locked.Jobs.Update.{update_where, update_where-All, select-All}
use skip_locked.Jobs.Find.{update_where-Below, select-Below}
use skip_locked.Enqueue.{insert_job, insert_job_at, insert_row, mark_done_sql, done_row}
use skip_locked.Claim.{claim_batch_sql, claimed_row, claimable}
use skip_locked.Claim.Effect.{claimed_db}
use skip_locked.Claim.Batch.{claim_batch_sql-ok, locked_ids, locked-free}
use skip_locked.Claim.Fair.{Candidate, fair_claim_sql, fair_ids}
use skip_locked.Claim.Fair.Winners.{fair_claim_sql-ok, fair_ids-mem}
use skip_locked.Lease.{
  Duration, heartbeat_sql, reap_sql, holds, beaten, expired, released, cutoff, lease_secs,
}
use skip_locked.Retry.{requeue_sql, dead_letter_sql, retriable, requeued}
use skip_locked.Queue.{
  Op, insert, insert_at, claim, claim_fairly, finish, beat, reaps, retry, bury, after, apply,
}
use skip_locked.Queue.Lawful.{
  IsLawful, Inv, new_row-IsLawful, claimed_row-IsLawful, done_row-IsLawful, beaten-IsLawful,
  released-IsLawful, requeued-IsLawful,
}

module _ {P : Type 0} where
  update-Inv :
      (p : Row P → Bool) (f : Row P → Row P) (db : Db P)
      → ((r : Row P) → (f r).id ≡ r.id)
      → ((r : Row P) → Memᴰ r db.jobs → IsLawful r → p r ≡ true → IsLawful (f r))
      → Inv db
      → Inv (record db { jobs = update_where p f db.jobs })
  update-Inv p f db k h v = record {
    fresh = update_where-Below db.next_id p f db.jobs k v.fresh;
    lawful = update_where-All IsLawful p f db.jobs h v.lawful;
  }

  insert_row-Inv :
      (kind : String) (payload : P) (run_at : ℕ) (db : Db P)
      → Inv db
      → Inv (after db (insert_row kind payload run_at db))
  insert_row-Inv kind payload run_at db v = record {
    fresh = (omega arith, v.fresh);
    lawful = (new_row-IsLawful db.next_id kind payload run_at, v.lawful);
  }

  module _ (ids : List ℕ) (worker : String) (now : ℕ) (kinds : List String) (db : Db P) where
    pub claimed_db-Inv :
        ((r : Row P) → Memᴰ r db.jobs → contains ids r.id ≡ true → claimable now kinds r ≡ true)
        → Inv db
        → Inv (claimed_db ids worker now db)
    claimed_db-Inv h v =
        update-Inv (λ r. contains ids r.id) (claimed_row now worker) db (λ r. refl)
          (λ r m l t. claimed_row-IsLawful now kinds worker r l (h r m t)) v

  claim-Inv :
      (order : OrderBy (Row P) (λ r. r.run_at)) (held : ℕ → Bool) (kinds : List String) (n : ℤ)
      (worker : String) (now : ℕ) (db : Db P)
      → Inv db
      → Inv (after db (claim_batch_sql order held kinds n worker now db))
  claim-Inv order held kinds (negsuc n) worker now db v = unfold claim_batch_sql in v
  claim-Inv order held kinds (pos k) worker now db v =
      elim (Result-cases (claim_batch_sql order held kinds (pos k) worker now db)) [
        | inr (e, q) ↦ rw q v
        | inl (a, q) ↦ rw q (
            rw (claim_batch_sql-ok order held kinds k worker now db q).1 (
              claimed_db-Inv (locked_ids order held kinds k now db) worker now kinds db
                (λ r m t.
                  ground (arith, (locked-free order held kinds k now db.next_id db v.fresh m t).1))
                v))
      ]

  fair-Inv :
      (json : Json P) (order : OrderBy (Row P) (λ r. r.run_at))
      (window : OrderBy Candidate (λ c. c.run_at)) (held : ℕ → Bool) (kinds : List String)
      (size share : ℤ) (worker : String) (now : ℕ) (db : Db P)
      → Inv db
      → Inv (after db (fair_claim_sql json order window held kinds size share worker now db))
  fair-Inv json order window held kinds (negsuc n) share worker now db v =
      unfold fair_claim_sql in ground arith
  fair-Inv json order window held kinds (pos size) share worker now db v =
      elim (Result-cases
        (fair_claim_sql json order window held kinds (pos size) share worker now db)) [
          | inr (e, q) ↦ rw q v
          | inl (a, q) ↦ rw q (
              rw (fair_claim_sql-ok json order window held kinds size share worker now db q).1 (
                claimed_db-Inv (fair_ids json order window held kinds (size * 4) share now db)
                  worker now kinds db
                  (λ r m t. ground (
                    arith,
                    (fair_ids-mem json order window held kinds (size * 4) share now db.next_id db
                        v.fresh m t).1,
                  ))
                  v))
        ]

  reap-Inv :
      (lease : Duration) (now : ℕ) (db : Db P) → Inv db → Inv (after db (reap_sql lease now db))
  unfolding reap_sql
  reap-Inv lease now db v = elim (Result-cases (cutoff (lease_secs lease) now)) [
    | inr (e, q) ↦ rw q v
    | inl (c, q) ↦ rw q (
        update-Inv (expired c) released db (λ r. refl)
          (λ r m l t. released-IsLawful r l (ground arith)) v)
  ]

  retry-Inv :
      (id : ℕ) (error : String) (now : ℕ) (db : Db P)
      → Inv db
      → Inv (after db (requeue_sql id error now db))
  unfolding requeue_sql
  retry-Inv id error now db v = ground (
    arith,
    update-Inv (retriable id) (requeued error now) db (λ r. refl)
        (λ r m l t. requeued-IsLawful error now r l (ground arith)) v,
  )

  -- A statement of the crate, at any time, keeps keys unique and every row lawful.
  pub apply-Inv : (op : Op P) (now : ℕ) (db : Db P) → Inv db → Inv (apply op now db)
  unfolding apply insert_job insert_job_at mark_done_sql heartbeat_sql dead_letter_sql
  apply-Inv (insert kind payload) now db v = insert_row-Inv kind payload now db v
  apply-Inv (insert_at kind payload run_at) now db v = insert_row-Inv kind payload run_at db v
  apply-Inv (claim order held kinds n worker) now db v =
      claim-Inv order held kinds n worker now db v
  apply-Inv (claim_fairly json order window held kinds size share worker) now db v =
      fair-Inv json order window held kinds size share worker now db v
  apply-Inv (finish id) now db v =
      update-Inv (λ r. r.id == id) done_row db (λ r. refl) (λ r m l t. done_row-IsLawful r l) v
  apply-Inv (beat ids worker) now db v =
      update-Inv (holds ids worker) (beaten now) db (λ r. refl)
        (λ r m l t. beaten-IsLawful now ids worker r l t) v
  apply-Inv (reaps lease) now db v = reap-Inv lease now db v
  apply-Inv (retry id error) now db v = retry-Inv id error now db v
  apply-Inv (bury id error) now db v = record {
    fresh = select-Below db.next_id (λ r. not (r.id == id)) db.jobs v.fresh;
    lawful = select-All IsLawful (λ r. not (r.id == id)) db.jobs v.lawful;
  }
