-- ===== src/Claimers/Counted.antt =====
-- The column `attempts` counts the times that a job was handed to a worker.
use mathlib.Core.List.Memᴰ.{head, tail}
use skip_locked.Prelude.{
  ℕ, ◌+◌, ◌≤◌, ◌≡◌, refl, List, [], ◌∷◌, ◌++◌, Bool, arith, count_if, count_if-append,
  count_if-pos_of_mem, Memᴰ, ==_iff, ◌==◌, select, map, if◌then◌else◌, inl, inr, contains, String,
  ap, ◌*◌,
}
use skip_locked.Prelude.Int.{pos, negsuc}
use skip_locked.Postgres.{Result-cases}
use skip_locked.Jobs.{Row, DeadRow, Db, empty_db, job_of}
use skip_locked.Jobs.Update.{update_where, delete_where, returning}
use skip_locked.Enqueue.{insert_job, insert_job_at, mark_done_sql, done_row}
use skip_locked.Claim.{claim_batch_sql, claimed_row}
use skip_locked.Claim.Batch.{claim_batch_sql-ok, locked_ids}
use skip_locked.Claim.Fair.{fair_claim_sql, fair_ids}
use skip_locked.Claim.Fair.Winners.{fair_claim_sql-ok}
use skip_locked.Lease.{
  heartbeat_sql, reap_sql, holds, beaten, expired, released, cutoff, lease_secs,
}
use skip_locked.Retry.{requeue_sql, dead_letter_sql, retriable, requeued, dead_row}
use skip_locked.Queue.{
  Op, insert, insert_at, claim, claim_fairly, finish, beat, reaps, retry, bury, apply, run,
}
use skip_locked.Queue.Runs.{empty_db-Inv, attempts_bounded}
use skip_locked.Queue.Conserved.{run-IsWhole, empty_db-IsWhole}
use skip_locked.Claimers.{Shared}
use skip_locked.Claimers.Steps.{Reach, answer}
use skip_locked.Claimers.Disjoint.{returned_times}
use skip_locked.Claimers.Serial.{answers, Reach-Serial}

module _ {P : Type 0} where
  abbrev pub attempts_in : ℕ → List (Row P) → ℕ
  attempts_in i [] = 0
  attempts_in i (r ∷ rs) = (if r.id == i then r.attempts else 0) + attempts_in i rs

  abbrev pub attempts_dead : ℕ → List (DeadRow P) → ℕ
  attempts_dead i [] = 0
  attempts_dead i (d ∷ ds) = (if d.id == i then d.attempts else 0) + attempts_dead i ds

  -- The attempts counted for an id, in both tables.
  abbrev pub attempts_of : ℕ → Db P → ℕ
  attempts_of i db = attempts_in i db.jobs + attempts_dead i db.jobs_dead

  update-attempts :
      (p : Row P → Bool) (f : Row P → Row P) (i : ℕ) (rs : List (Row P))
      → ((r : Row P) → ((f r).id ≡ r.id) × ((f r).attempts ≡ r.attempts))
      → attempts_in i (update_where p f rs) ≡ attempts_in i rs
  update-attempts p f i [] k = refl
  update-attempts p f i (r ∷ rs) k = ground (arith, k r, update-attempts p f i rs k)

  claimed-attempts :
      (ids : List ℕ) (worker : String) (now i : ℕ) (rs : List (Row P))
      → attempts_in i (update_where (λ r. contains ids r.id) (claimed_row now worker) rs)
        ≡ attempts_in i rs
          + count_if
              (λ j. j.id == i)
              (map job_of (returning (λ r. contains ids r.id) (claimed_row now worker) rs))
  claimed-attempts ids worker now i [] = omega arith
  claimed-attempts ids worker now i (r ∷ rs) = ground (arith, claimed-attempts ids worker now i rs)

  delete-attempts :
      (i id : ℕ) (error : String) (now : ℕ) (rs : List (Row P)) (ds : List (DeadRow P))
      → attempts_in i (delete_where (λ r. r.id == id) rs)
          + attempts_dead i (map (dead_row error now) (select (λ r. r.id == id) rs) ++ ds)
        ≡ attempts_in i rs + attempts_dead i ds
  delete-attempts i id error now [] ds = refl
  delete-attempts i id error now (r ∷ rs) ds = ground (arith, delete-attempts i id error now rs ds)

  -- A statement counts an attempt for each job that it returns, and no other.
  apply-attempts :
      (i : ℕ) (op : Op P) (now : ℕ) (db : Db P)
      → attempts_of i (apply op now db)
        ≡ attempts_of i db + count_if (λ j. j.id == i) (answer op now db)
  unfolding apply answer insert_job insert_job_at mark_done_sql heartbeat_sql reap_sql requeue_sql
      dead_letter_sql
  apply-attempts i (insert kind payload) now db = ground arith
  apply-attempts i (insert_at kind payload run_at) now db = ground arith
  apply-attempts i (claim order held kinds (negsuc n) worker) now db =
      unfold claim_batch_sql in omega arith
  apply-attempts i (claim order held kinds (pos k) worker) now db =
      elim (Result-cases (claim_batch_sql order held kinds (pos k) worker now db)) [
        | inr (e, q) ↦ rw q (omega arith)
        | inl (a, q) ↦ rw q (
            let (ej, ed) = claim_batch_sql-ok order held kinds k worker now db q in
            rw (ej, ed)
              (omega (
                arith,
                claimed-attempts (locked_ids order held kinds k now db) worker now i db.jobs,
              )))
      ]
  apply-attempts i (claim_fairly json order window held kinds (negsuc n) share worker) now db =
      unfold fair_claim_sql in ground arith
  apply-attempts i (claim_fairly json order window held kinds (pos size) share worker) now db =
      elim (Result-cases
        (fair_claim_sql json order window held kinds (pos size) share worker now db)) [
          | inr (e, q) ↦ rw q (omega arith)
          | inl (a, q) ↦ rw q (
              let (ej, ed) =
                fair_claim_sql-ok json order window held kinds size share worker now db q in
              rw (ej, ed)
                (omega (
                  arith,
                  claimed-attempts (fair_ids json order window held kinds (size * 4) share now db)
                      worker now i db.jobs,
                )))
        ]
  apply-attempts i (finish id) now db =
      omega (arith, update-attempts (λ r. r.id == id) done_row i db.jobs (λ r. (refl, refl)))
  apply-attempts i (beat ids worker) now db =
      omega (arith, update-attempts (holds ids worker) (beaten now) i db.jobs (λ r. (refl, refl)))
  apply-attempts i (reaps lease) now db = elim (Result-cases (cutoff (lease_secs lease) now)) [
    | inr (e, q) ↦ rw q (omega arith)
    | inl (c, q) ↦
        rw q (omega (arith, update-attempts (expired c) released i db.jobs (λ r. (refl, refl))))
  ]
  apply-attempts i (retry id error) now db =
      ground
        (arith, update-attempts (retriable id) (requeued error now) i db.jobs (λ r. (refl, refl)))
  apply-attempts i (bury id error) now db =
      omega (arith, delete-attempts i id error now db.jobs db.jobs_dead)

  run-attempts :
      (i : ℕ) (ops : List (ℕ × Op P)) (db : Db P)
      → attempts_of i (run ops db) ≡ attempts_of i db + count_if (λ j. j.id == i) (answers ops db)
  unfolding run
  run-attempts i [] db = omega arith
  run-attempts i ((now, op) ∷ ops) db = omega (
    arith,
    run-attempts i ops (apply op now db),
    apply-attempts i op now db,
    count_if-append (λ j. j.id == i) (answers ops (apply op now db)) (answer op now db),
  )

  attempts_none :
      (i : ℕ) (rs : List (Row P)) → count_if (λ r. r.id == i) rs ≡ 0 → attempts_in i rs ≡ 0
  attempts_none i [] h = refl
  attempts_none i (r ∷ rs) h = ground (arith, attempts_none i rs)

  dead_none :
      (i : ℕ) (ds : List (DeadRow P))
      → count_if (λ (d : DeadRow P). d.id == i) ds ≡ 0
      → attempts_dead i ds ≡ 0
  dead_none i [] h = refl
  dead_none i (d ∷ ds) h = ground (arith, dead_none i ds)

  attempts_one :
      (rs : List (Row P)) {r : Row P}
      → Memᴰ r rs
      → count_if (λ s. s.id == r.id) rs ≤ 1
      → attempts_in r.id rs ≡ r.attempts
  attempts_one [] m h = elim m [ ]
  attempts_one (x ∷ rs) {r} (head e) h =
      ground
        (arith, ap (λ (q : Row P). q.id) e, ap (λ (q : Row P). q.attempts) e, attempts_none r.id rs)
  attempts_one (x ∷ rs) {r} (tail m) h = ground (
    arith,
    count_if-pos_of_mem (λ s. s.id == r.id) rs m ((==_iff r.id r.id).1 refl),
    attempts_one rs m,
  )

  -- Whatever the sessions do at the same time, a job in the table was handed to workers exactly as often as its row
  -- says, and never more often than its `max_attempts`.
  pub executions_bounded :
      {s : Shared P} {r : Row P}
      → Reach empty_db s
      → Memᴰ r s.db.jobs
      → (returned_times r.id s ≡ r.attempts) × (r.attempts ≤ r.max_attempts)
  executions_bounded {s} {r} reach m =
      let z = Reach-Serial empty_db-Inv reach in
      let m' : Memᴰ r (run z.ops empty_db).jobs = rw z.tables m in
      let once = (run-IsWhole z.ops empty_db (empty_db-IsWhole P)).1 r.id in
      let one =
        count_if-pos_of_mem (λ q. q.id == r.id) (run z.ops empty_db).jobs m'
          ((==_iff r.id r.id).1 refl) in
      (
        ground (
          arith,
          run-attempts r.id z.ops empty_db,
          ap (count_if (λ j. j.id == r.id)) z.returns,
          attempts_one (run z.ops empty_db).jobs m',
          dead_none r.id (run z.ops empty_db).jobs_dead,
          once,
          one,
        ),
        attempts_bounded z.ops m',
      )
