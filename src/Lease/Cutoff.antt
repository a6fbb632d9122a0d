-- ===== src/Lease/Cutoff.antt =====
-- The reaper's statement where the lease is in range of the cast.
use skip_locked.Prelude.{
  ℕ, suc, ltb, ◌⊎◌, inl, inr, Bool-cases, ◌+◌, ◌-◌, ◌*◌, ◌^◌, ◌≤◌, ◌<◌, ◌≡◌, refl, if◌then◌else◌,
  count_if, arith, Memᴰ, some,
}
use skip_locked.Prelude.Int.{pos, negsuc, as_i64}
use skip_locked.Postgres.{Result, ok, err, interval_out_of_range}
use skip_locked.Jobs.{Row, Db, second}
use skip_locked.Jobs.Find.{Below, find, find_of_mem, find-update_where}
use skip_locked.Lease.{Duration, expired, released, reap_sql, cutoff, lease_secs}

pub as_i64-small : (n : ℕ) → n < 2 ^ 63 → as_i64 n ≡ pos n
as_i64-small n h = ground arith

pub cutoff-ok : (s now c : ℕ) → cutoff (pos s) now ≡ ok c → c + s * second ≡ now
cutoff-ok s now c e = ground arith

as_i64-wrapped : (n : ℕ) → 2 ^ 63 ≤ n → n < 2 ^ 64 → as_i64 n ≡ negsuc (2 ^ 64 - 1 - n)
as_i64-wrapped n h k = ground arith

pub cutoff-wrapped :
    (n now : ℕ)
    → 2 ^ 63 ≤ n
    → n < 2 ^ 64
    → (((2 ^ 64 - n) * second < 2 ^ 63) × (c : ℕ) × (now < c) × (cutoff (as_i64 n) now ≡ ok c))
      ⊎ ((2 ^ 63 ≤ (2 ^ 64 - n) * second) × (cutoff (as_i64 n) now ≡ err interval_out_of_range))
cutoff-wrapped n now h k =
    let ahead : suc (2 ^ 64 - 1 - n) ≡ 2 ^ 64 - n = omega arith in
    elim (Bool-cases (ltb (suc (2 ^ 64 - 1 - n) * second) (2 ^ 63))) [
      | inl t ↦ inl (
        ground (arith, t, ahead),
        now + suc (2 ^ 64 - 1 - n) * second,
        omega arith,
        rw (as_i64-wrapped n h k, t) refl,
      )
      | inr f ↦ inr (ground (arith, f, ahead), rw (as_i64-wrapped n h k, f) refl)
    ]

module _ {P : Type 0} where
  -- Where the statement goes through, a row is released exactly if it has expired.
  pub find-reap_sql :
      (lease : Duration) (now n : ℕ) (db : Db P) {k : ℕ} {db' : Db P}
      → Below n db.jobs
      → reap_sql lease now db ≡ ok (k, db')
      → (c : ℕ) × (cutoff (lease_secs lease) now ≡ ok c)
        × (k ≡ count_if (expired c) db.jobs)
        × ((r : Row P)
            → Memᴰ r db.jobs
            → find r.id db'.jobs ≡ some (if expired c r then released r else r))
  unfolding reap_sql
  find-reap_sql lease now n db {k} {db'} b e = go (cutoff (lease_secs lease) now) refl
    where
      go :
          (x : Result ℕ)
          → cutoff (lease_secs lease) now ≡ x
          → (c : ℕ) × (cutoff (lease_secs lease) now ≡ ok c)
            × (k ≡ count_if (expired c) db.jobs)
            × ((r : Row P)
                → Memᴰ r db.jobs
                → find r.id db'.jobs ≡ some (if expired c r then released r else r))
      go (err x) q = ground arith
      go (ok c) q = (
        c,
        q,
        ground arith,
        λ r m. ground (
          arith,
          find_of_mem n db.jobs b m,
          find-update_where (expired c) released r.id db.jobs (λ s. refl),
        ),
      )
