-- ===== src/Lease/Reaper.antt =====
-- Which jobs the reaper brings back, and which it never does.
use skip_locked.Prelude.{
  ℕ, ◌+◌, ◌*◌, ◌^◌, ◌≤◌, ◌<◌, ◌≡◌, ◌⊎◌, ◌-◌, inl, inr, refl, count_if, List, true, arith, Memᴰ,
  some, String,
}
use skip_locked.Postgres.{ok, err, interval_out_of_range}
use skip_locked.Jobs.{Row, Db, second, running}
use skip_locked.Jobs.Update.{update_where}
use skip_locked.Jobs.Find.{Below, find}
use skip_locked.Claim.{claimable, any_kind}
use skip_locked.Lease.{Duration, expired, released, reap_sql}
use skip_locked.Lease.Cutoff.{as_i64-small, cutoff-ok, cutoff-wrapped, find-reap_sql}

module _ {P : Type 0} (lease : Duration) (now n : ℕ) (db : Db P) {k : ℕ} {db' : Db P} {r : Row P}
    (b : Below n db.jobs) (mem : Memᴰ r db.jobs) (e : reap_sql lease now db ≡ ok (k, db')) where
  -- A running job whose lease has run out, with an attempt left, is brought back: it is released,
  -- and whoever serves its kind can claim it at once.
  pub reap-recovers :
      (t : ℕ) (kinds : List String)
      → lease.secs < 2 ^ 63
      → r.state ≡ running
      → r.locked_at ≡ some t
      → t + lease.secs * second < now
      → r.attempts < r.max_attempts
      → r.run_at ≤ now
      → any_kind kinds r.kind ≡ true
      → (find r.id db'.jobs ≡ some (released r)) × (claimable now kinds (released r) ≡ true)
  reap-recovers t kinds small run locked over spare due served =
      let (c, q, _, each) = find-reap_sql lease now n db b e in
      let c_eq : c + lease.secs * second ≡ now =
        cutoff-ok lease.secs now c (rw (as_i64-small lease.secs small) at q) in
      ground (arith, each r mem)

  -- A job that is within its lease stays with its worker.
  pub reap-spares :
      (t : ℕ)
      → lease.secs < 2 ^ 63
      → r.locked_at ≡ some t
      → now ≤ t + lease.secs * second
      → find r.id db'.jobs ≡ some r
  reap-spares t small locked within =
      let (c, q, _, each) = find-reap_sql lease now n db b e in
      let c_eq : c + lease.secs * second ≡ now =
        cutoff-ok lease.secs now c (rw (as_i64-small lease.secs small) at q) in
      ground (arith, each r mem)

  -- A job on its last attempt is never brought back, however long ago its worker died.
  pub reap_exhausted : r.max_attempts ≤ r.attempts → find r.id db'.jobs ≡ some r
  reap_exhausted h =
      let (c, q, _, each) = find-reap_sql lease now n db b e in ground (arith, each r mem)

-- A lease from 2^63 to below 2^64 seconds counts as one of minus `2 ^ 64 - secs` seconds. If this is less than the 2^63
-- microseconds of an interval, the reaper goes through and releases each running job that was locked up to now and
-- has an attempt left, also one that was claimed this very moment; otherwise it raises.
pub reap_wrapped_lease :
    {P : Type 0} (lease : Duration) (now n : ℕ) (db : Db P) {r : Row P} (t : ℕ)
    → Below n db.jobs
    → Memᴰ r db.jobs
    → 2 ^ 63 ≤ lease.secs
    → lease.secs < 2 ^ 64
    → r.state ≡ running
    → r.locked_at ≡ some t
    → t ≤ now
    → r.attempts < r.max_attempts
    → (((2 ^ 64 - lease.secs) * second < 2 ^ 63)
        × (k : ℕ) × (db' : Db P) × (reap_sql lease now db ≡ ok (k, db'))
        × (find r.id db'.jobs ≡ some (released r)))
      ⊎ ((2 ^ 63 ≤ (2 ^ 64 - lease.secs) * second)
          × (reap_sql lease now db ≡ err interval_out_of_range))
unfolding reap_sql
reap_wrapped_lease lease now n db {r} t b mem big fits run locked past spare =
    elim (cutoff-wrapped lease.secs now big fits) [
      | inr (far, q) ↦ inr (far, rw q refl)
      | inl (near, c, ahead, q) ↦
          let done : reap_sql lease now db
              ≡ ok (
                count_if (expired c) db.jobs,
                record db { jobs = update_where (expired c) released db.jobs },
              ) =
            rw q refl in
          let (c', q', _, each) = find-reap_sql lease now n db b done in
          let same : c' ≡ c = ground (arith, q, q') in
          inl (near, _, _, done, ground (arith, each r mem, same, ahead))
    ]
