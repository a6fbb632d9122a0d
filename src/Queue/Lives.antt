-- ===== src/Queue/Lives.antt =====
-- Every statement keeps to the life of a job.
use skip_locked.Prelude.{
  ℕ, ◌≡◌, refl, List, [], ◌∷◌, String, arith, ◌==◌, ==_iff, leb, select, Memᴰ, Bool-cases,
  Option-cases, inl, inr, All-mem, any, ◌&&◌, subst, sym,
}
use skip_locked.Postgres.{Result-cases}
use skip_locked.Jobs.{Row, Db}
use skip_locked.Jobs.Find.{find, find-mem, find-delete_where, select_id, delete_where_absent}
use skip_locked.Enqueue.{insert_job, insert_job_at, mark_done_sql, done_row}
use skip_locked.Lease.{
  Duration, heartbeat_sql, reap_sql, holds, beaten, expired, released, cutoff, lease_secs,
}
use skip_locked.Retry.{max_exponent, requeue_sql, dead_letter_sql, retriable, requeued}
use skip_locked.Queue.{
  Op, insert, insert_at, claim, claim_fairly, finish, beat, reaps, retry, bury, after, apply,
}
use skip_locked.Queue.Lawful.{IsLawful, Inv}
use skip_locked.Queue.Conserved.{IsWhole}
use skip_locked.Queue.Lifecycle.{
  waiting, working, finished, buried, stage_row, stage_of, Goes, stays, enqueued, enqueued_at,
  reaped, retried, completed, given_up,
}
use skip_locked.Queue.Moves.{update-Goes, attempts_of-row, insert-Goes, claim-Goes, fair-Goes}

module _ {P : Type 0} (i : ℕ) where
  mem-IsLawful : (db : Db P) → Inv db → {r : Row P} → Memᴰ r db.jobs → IsLawful r
  mem-IsLawful db v m = All-mem IsLawful db.jobs v.lawful m

  reap-Goes :
      (lease : Duration) (now : ℕ) (db : Db P)
      → Goes {P = P} i (reaps lease) (stage_of i db) (stage_of i (after db (reap_sql lease now db)))
  unfolding reap_sql
  reap-Goes lease now db = elim (Result-cases (cutoff (lease_secs lease) now)) [
    | inr (e, q) ↦ rw q (stays _ _)
    | inl (c, q) ↦ rw q (
        update-Goes i _ (expired c) released db (λ r. refl)
          (λ r m key t.
            let at : stage_row r ≡ working r.locked_by r.attempts = ground (arith, t) in
            rw at (reaped lease r.locked_by r.attempts)))
  ]

  retry-Goes :
      (id : ℕ) (error : String) (now : ℕ) (db : Db P)
      → Inv db
      → Goes {P = P} i
          (retry id error)
          (stage_of i db)
          (stage_of i (after db (requeue_sql id error now db)))
  unfolding requeue_sql
  retry-Goes id error now db v =
      elim (Bool-cases (any (λ r. retriable id r && leb max_exponent r.attempts) db.jobs)) [
        | inl t ↦ rw t (stays _ _)
        | inr f ↦ rw f (
            update-Goes i _ (retriable id) (requeued error now) db (λ r. refl)
              (λ r m key t.
                let same : i ≡ id = omega (arith, key, (==_iff r.id id).0 (ground (arith, t))) in
                subst (λ j. Goes {P = P} i (retry j error) (stage_row r) (waiting r.attempts)) same
                  (retried error (stage_row r) r.attempts
                    (attempts_of-row i r (mem-IsLawful db v m)))))
      ]

  finish-Goes :
      (id now : ℕ) (db : Db P)
      → Inv db
      → Goes {P = P} i (finish id) (stage_of i db) (stage_of i (after db (mark_done_sql id now db)))
  unfolding mark_done_sql
  finish-Goes id now db v =
      update-Goes i _ (λ r. r.id == id) done_row db (λ r. refl)
        (λ r m key t.
          let same : i ≡ id = omega (arith, key, (==_iff r.id id).0 t) in
          subst (λ j. Goes {P = P} i (finish j) (stage_row r) (finished r.attempts)) same
            (completed (stage_row r) r.attempts (attempts_of-row i r (mem-IsLawful db v m))))

  -- A heartbeat moves no job.
  beat-Goes :
      (ids : List ℕ) (worker : String) (now : ℕ) (db : Db P)
      → Goes {P = P} i
          (beat ids worker)
          (stage_of i db)
          (stage_of i (after db (heartbeat_sql ids worker now db)))
  unfolding heartbeat_sql
  beat-Goes ids worker now db =
      update-Goes i _ (holds ids worker) (beaten now) db (λ r. refl) (λ r m key t. stays _ _)

  bury-Goes :
      (id : ℕ) (error : String) (now : ℕ) (db : Db P)
      → Inv db
      → Goes {P = P} i
          (bury id error)
          (stage_of i db)
          (stage_of i (after db (dead_letter_sql id error now db)))
  unfolding dead_letter_sql
  bury-Goes id error now db v = elim (Option-cases (find id db.jobs)) [
    | inl e ↦
        let same : after db (dead_letter_sql id error now db) ≡ db =
          ground
            (arith, e, select_id id db.next_id db.jobs v.fresh, delete_where_absent id db.jobs e) in
        subst (λ (d : Db P). Goes {P = P} i (bury id error) (stage_of i db) (stage_of i d))
          (sym same) (stays _ _)
    | inr (r, e) ↦
        let (m, key) = find-mem id db.jobs e in
        let gone : select (λ (r : Row P). r.id == id) db.jobs ≡ r ∷ [] =
          rw (select_id id db.next_id db.jobs v.fresh, e) refl in
        elim (Bool-cases (i == id)) [
          | inr f ↦
              let same : stage_of i (after db (dead_letter_sql id error now db)) ≡ stage_of i db =
                rw gone (ground (arith, key, f, find-delete_where id i db.jobs)) in
              subst (Goes {P = P} i (bury id error) (stage_of i db)) (sym same) (stays _ _)
          | inl t ↦
              let eq : i ≡ id = (==_iff i id).0 t in
              let before : stage_of i db ≡ stage_row r = rw (eq, e) refl in
              let behind : stage_of i (after db (dead_letter_sql id error now db)) ≡ buried =
                rw gone (ground (arith, key, t, eq, find-delete_where id i db.jobs)) in
              subst (Goes {P = P} i (bury id error) (stage_of i db)) (sym behind) (
                rw before (
                  subst (λ j. Goes {P = P} i (bury j error) (stage_row r) buried) eq
                    (given_up error (stage_row r) r.attempts
                      (attempts_of-row i r (mem-IsLawful db v m)))))
        ]
  ]

  -- In a table that keeps its invariant and has lost no job, every statement does to the job with any id what the life
  -- of a job allows it to do.
  pub apply-Goes :
      (op : Op P) (now : ℕ) (db : Db P)
      → Inv db
      → IsWhole db
      → Goes i op (stage_of i db) (stage_of i (apply op now db))
  unfolding apply insert_job insert_job_at
  apply-Goes (insert kind payload) now db v w =
      insert-Goes i _ kind payload now db v w (enqueued kind payload)
  apply-Goes (insert_at kind payload run_at) now db v w =
      insert-Goes i _ kind payload run_at db v w (enqueued_at kind payload run_at)
  apply-Goes (claim order held kinds n worker) now db v w =
      claim-Goes i order held kinds n worker now db v
  apply-Goes (claim_fairly json order window held kinds size share worker) now db v w =
      fair-Goes i json order window held kinds size share worker now db v
  apply-Goes (finish id) now db v w = finish-Goes id now db v
  apply-Goes (beat ids worker) now db v w = beat-Goes ids worker now db
  apply-Goes (reaps lease) now db v w = reap-Goes lease now db
  apply-Goes (retry id error) now db v w = retry-Goes id error now db v
  apply-Goes (bury id error) now db v w = bury-Goes id error now db v
