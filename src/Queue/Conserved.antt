-- ===== src/Queue/Conserved.antt =====
-- No statement loses a job or makes one up: a job leaves `jobs` only for `jobs_dead`.
use skip_locked.Prelude.{
  ℕ, ◌+◌, ◌≤◌, ◌≡◌, refl, List, [], ◌∷◌, Bool, String, arith, count_if, count_if-append,
  count_if-map, ◌==◌, select, map, if◌then◌else◌, ◌&&◌, ltb, leb, inl, inr,
}
use skip_locked.Prelude.Int.{pos, negsuc}
use skip_locked.Postgres.{Result-cases}
use skip_locked.Jobs.{Row, DeadRow, Db, empty_db}
use skip_locked.Jobs.Update.{update_where, delete_where}
use skip_locked.Enqueue.{insert_job, insert_job_at, mark_done_sql, done_row}
use skip_locked.Claim.{claim_batch_sql, claimed_row}
use skip_locked.Claim.Batch.{claim_batch_sql-ok}
use skip_locked.Claim.Fair.{fair_claim_sql}
use skip_locked.Claim.Fair.Winners.{fair_claim_sql-ok}
use skip_locked.Lease.{
  heartbeat_sql, reap_sql, holds, beaten, expired, released, cutoff, lease_secs,
}
use skip_locked.Retry.{requeue_sql, dead_letter_sql, retriable, requeued, dead_row}
use skip_locked.Queue.{
  Op, insert, insert_at, claim, claim_fairly, finish, beat, reaps, retry, bury, after, apply, run,
}

module _ {P : Type 0} where
  -- How often an id stands in the two tables.
  abbrev pub occurrences : ℕ → Db P → ℕ
  occurrences i db =
      count_if (λ r. r.id == i) db.jobs + count_if (λ (d : DeadRow P). d.id == i) db.jobs_dead

  -- Ids start at 1; each that was handed out is in the two tables once, and no other id is.
  abbrev pub IsWhole : Db P → Type 0
  IsWhole db =
      (1 ≤ db.next_id)
      × ((i : ℕ) → occurrences i db ≡ (if leb 1 i && ltb i db.next_id then 1 else 0))

  abbrev inserts : Op P → ℕ
  inserts (insert kind payload) = 1
  inserts (insert_at kind payload run_at) = 1
  inserts _ = 0

  -- The database after a statement, as far as the ids go.
  abbrev Grows : ℕ → Db P → Db P → Type 0
  Grows n db db' =
      (db'.next_id ≡ db.next_id + n)
      × ((i : ℕ) → occurrences i db' ≡ occurrences i db + (if db.next_id == i then n else 0))

  count_id-update_where :
      (p : Row P → Bool) (f : Row P → Row P) (i : ℕ) (rs : List (Row P))
      → ((r : Row P) → (f r).id ≡ r.id)
      → count_if (λ r. r.id == i) (update_where p f rs) ≡ count_if (λ r. r.id == i) rs
  count_id-update_where p f i [] k = refl
  count_id-update_where p f i (r ∷ rs) k = ground (arith, k r, count_id-update_where p f i rs k)

  same-Grows : (db : Db P) → Grows 0 db db
  same-Grows db = (omega arith, λ i. ground arith)

  update-Grows :
      (p : Row P → Bool) (f : Row P → Row P) (db : Db P)
      → ((r : Row P) → (f r).id ≡ r.id)
      → Grows 0 db (record db { jobs = update_where p f db.jobs })
  update-Grows p f db k = (omega arith, λ i. ground (arith, count_id-update_where p f i db.jobs k))

  pub count_if-delete_where :
      (q p : Row P → Bool) (rs : List (Row P))
      → count_if q (delete_where p rs) + count_if q (select p rs) ≡ count_if q rs
  count_if-delete_where q p [] = omega arith
  count_if-delete_where q p (r ∷ rs) = ground (arith, count_if-delete_where q p rs)

  bury-Grows :
      (id : ℕ) (error : String) (now : ℕ) (db : Db P)
      → Grows 0 db (after db (dead_letter_sql id error now db))
  unfolding dead_letter_sql
  bury-Grows id error now db = (
    omega arith,
    λ i.
        let gone = select (λ (r : Row P). r.id == id) db.jobs in
        ground (
          arith,
          count_if-delete_where (λ r. r.id == i) (λ r. r.id == id) db.jobs,
          count_if-append (λ (d : DeadRow P). d.id == i) (map (dead_row error now) gone)
              db.jobs_dead,
          count_if-map (λ (d : DeadRow P). d.id == i) (dead_row error now) gone,
        ),
  )

  apply-Grows : (op : Op P) (now : ℕ) (db : Db P) → Grows (inserts op) db (apply op now db)
  unfolding apply insert_job insert_job_at mark_done_sql heartbeat_sql reap_sql requeue_sql
  apply-Grows (insert kind payload) now db = (omega arith, λ i. ground arith)
  apply-Grows (insert_at kind payload run_at) now db = (omega arith, λ i. ground arith)
  apply-Grows (claim order held kinds (negsuc n) worker) now db =
      unfold claim_batch_sql in same-Grows db
  apply-Grows (claim order held kinds (pos k) worker) now db =
      elim (Result-cases (claim_batch_sql order held kinds (pos k) worker now db)) [
        | inr (e, q) ↦ rw q (same-Grows db)
        | inl (a, q) ↦ rw q (
            rw (claim_batch_sql-ok order held kinds k worker now db q).1
              (update-Grows _ (claimed_row now worker) db (λ r. refl)))
      ]
  apply-Grows (claim_fairly json order window held kinds (negsuc n) share worker) now db =
      unfold fair_claim_sql in ground (arith, same-Grows db)
  apply-Grows (claim_fairly json order window held kinds (pos size) share worker) now db =
      elim (Result-cases
        (fair_claim_sql json order window held kinds (pos size) share worker now db)) [
          | inr (e, q) ↦ rw q (same-Grows db)
          | inl (a, q) ↦ rw q (
              rw (fair_claim_sql-ok json order window held kinds size share worker now db q).1
                (update-Grows _ (claimed_row now worker) db (λ r. refl)))
        ]
  apply-Grows (finish id) now db = update-Grows (λ r. r.id == id) done_row db (λ r. refl)
  apply-Grows (beat ids worker) now db = update-Grows (holds ids worker) (beaten now) db (λ r. refl)
  apply-Grows (reaps lease) now db = elim (Result-cases (cutoff (lease_secs lease) now)) [
    | inr (e, q) ↦ rw q (same-Grows db)
    | inl (c, q) ↦ rw q (update-Grows (expired c) released db (λ r. refl))
  ]
  apply-Grows (retry id error) now db =
      ground (arith, same-Grows db, update-Grows (retriable id) (requeued error now) db (λ r. refl))
  apply-Grows (bury id error) now db = bury-Grows id error now db

  pub apply-IsWhole : (op : Op P) (now : ℕ) (db : Db P) → IsWhole db → IsWhole (apply op now db)
  apply-IsWhole op now db w =
      let (n, o) = apply-Grows op now db in (omega (arith, n), λ i. ground (arith, n, o i, w.1 i))

  -- No history loses a job, doubles one or makes one up.
  pub run-IsWhole : (ops : List (ℕ × Op P)) (db : Db P) → IsWhole db → IsWhole (run ops db)
  unfolding run
  run-IsWhole [] db w = w
  run-IsWhole ((now, op) ∷ ops) db w = run-IsWhole ops (apply op now db) (apply-IsWhole op now db w)

pub empty_db-IsWhole : (P : Type 0) → IsWhole (empty_db {P = P})
empty_db-IsWhole P = (omega arith, λ i. ground arith)
