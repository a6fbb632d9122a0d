-- ===== src/Lease/Heartbeat.antt =====
-- What a heartbeat does for the owner of a job, and for a worker that lost it.
use skip_locked.Prelude.{
  ℕ, ◌+◌, ◌*◌, ◌^◌, ◌≤◌, ◌<◌, ◌≡◌, refl, List, [], ◌∷◌, Bool, true, false, some, String,
  if◌then◌else◌, ◌&&◌, ◌⊎◌, arith, Memᴰ,
}
use skip_locked.Postgres.{ok}
use skip_locked.Jobs.{Row, Db, is_running, held_by, second}
use skip_locked.Jobs.Update.{update_where_none}
use skip_locked.Jobs.Find.{
  Below, find, find_of_mem, find-update_where, find-mem, count_keyed, update_where-Below,
}
use skip_locked.Lease.Cutoff.{as_i64-small, cutoff-ok, find-reap_sql}
use skip_locked.Lease.{Duration, holds, beaten, heartbeat_sql, reap_sql}

module _ {P : Type 0} where
  -- A row after a heartbeat.
  pub find-heartbeat_sql :
      (ids : List ℕ) (worker : String) (now n : ℕ) (db : Db P) {r : Row P} {m : ℕ} {db' : Db P}
      → Below n db.jobs
      → Memᴰ r db.jobs
      → heartbeat_sql ids worker now db ≡ ok (m, db')
      → find r.id db'.jobs ≡ some (if holds ids worker r then beaten now r else r)
  unfolding heartbeat_sql
  find-heartbeat_sql ids worker now n db {r} b mem e = ground (
    arith,
    find_of_mem n db.jobs b mem,
    find-update_where (holds ids worker) (beaten now) r.id db.jobs (λ s. refl),
  )

  pub heartbeat_sql-Below :
      (ids : List ℕ) (worker : String) (now n : ℕ) (db : Db P) {m : ℕ} {db' : Db P}
      → Below n db.jobs
      → heartbeat_sql ids worker now db ≡ ok (m, db')
      → Below n db'.jobs
  unfolding heartbeat_sql
  heartbeat_sql-Below ids worker now n db b e =
      ground (arith, update_where-Below n (holds ids worker) (beaten now) db.jobs (λ r. refl) b)

  -- A heartbeat for one job answers 1 if the worker still holds it, and then renews its lease. If
  -- it answers 0, the job is gone, not running or another worker's, and nothing changes.
  pub heartbeat_sql_one :
      (worker : String) (now n : ℕ) (db : Db P) {r : Row P} {m : ℕ} {db' : Db P}
      → Below n db.jobs
      → Memᴰ r db.jobs
      → heartbeat_sql (r.id ∷ []) worker now db ≡ ok (m, db')
      → ((m ≡ 1)
          × (held_by r.locked_by worker ≡ true)
          × (is_running r.state ≡ true)
          × (find r.id db'.jobs ≡ some (beaten now r)))
        ⊎ ((m ≡ 0) × (held_by r.locked_by worker && is_running r.state ≡ false) × (db' ≡ db))
  unfolding heartbeat_sql
  heartbeat_sql_one worker now n db {r} b mem e =
      let hit : Row P → Bool = holds (r.id ∷ []) worker in
      let c = count_keyed hit r.id n db.jobs b (λ s h. ground arith) in
      let u = update_where_none hit (beaten now) db.jobs in
      ground (
        arith,
        c,
        u,
        find_of_mem n db.jobs b mem,
        find-update_where hit (beaten now) r.id db.jobs (λ s. refl),
      )

  -- A job whose owner sent a heartbeat stays as that left it through a reap within the lease, for a lease of less than
  -- 2^63 seconds.
  pub heartbeat-reap :
      (ids : List ℕ) (worker : String) (lease : Duration) (now later n : ℕ) (db : Db P) {r : Row P}
      {m k : ℕ} {db' db'' : Db P}
      → Below n db.jobs
      → Memᴰ r db.jobs
      → holds ids worker r ≡ true
      → heartbeat_sql ids worker now db ≡ ok (m, db')
      → lease.secs < 2 ^ 63
      → later ≤ now + lease.secs * second
      → reap_sql lease later db' ≡ ok (k, db'')
      → find r.id db''.jobs ≡ some (beaten now r)
  heartbeat-reap ids worker lease now later n db {r} {db' = db'} b mem h e small soon e' =
      let b' : Below n db'.jobs = heartbeat_sql-Below ids worker now n db b e in
      let found : find r.id db'.jobs ≡ some (beaten now r) =
        ground (arith, find-heartbeat_sql ids worker now n db b mem e) in
      let (c, q, _, each) = find-reap_sql lease later n db' b' e' in
      let c_eq : c + lease.secs * second ≡ later =
        cutoff-ok lease.secs later c (rw (as_i64-small lease.secs small) at q) in
      ground (arith, each (beaten now r) (find-mem r.id db'.jobs found).0)
