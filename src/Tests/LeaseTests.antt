-- ===== src/Tests/LeaseTests.antt =====
-- src/lease.rs.
use skip_locked.Prelude.{
  ℕ, ◌*◌, ◌^◌, ◌-◌, ◌<◌, ◌≤◌, ◌≡◌, refl, [], ◌∷◌, true, false, some, arith, ◌⊎◌, ◌&&◌,
}
use mathlib.Core.List.Memᴰ.{head}
use skip_locked.Postgres.{ok, err, interval_out_of_range}
use skip_locked.Jobs.{Db, second, held_by, is_running}
use skip_locked.Jobs.Find.{find}
use skip_locked.Claim.{claimable}
use skip_locked.Lease.{Duration, heartbeat_sql, reap_sql, beaten, released}
use skip_locked.Lease.Heartbeat.{heartbeat_sql_one, heartbeat-reap}
use skip_locked.Lease.Reaper.{reap-recovers, reap-spares, reap_exhausted, reap_wrapped_lease}
use skip_locked.Tests.Data.{Payload, job_a, job_b, job_late, job_run, table, table-Below, webhooks}

abbrev five_secs : Duration
five_secs = record { secs = 5; nanos = 999_999_999 }

abbrev beaten_table : ℕ → Db Payload
beaten_table now = record table { jobs = beaten now (job_run 3) ∷ job_late ∷ job_b ∷ job_a ∷ [] }

owner_beats : heartbeat_sql (4 ∷ []) "w1" (12 * second) table ≡ ok (1, beaten_table (12 * second))
unfolding heartbeat_sql
owner_beats = refl

ghost_beats : heartbeat_sql (4 ∷ []) "ghost" (12 * second) table ≡ ok (0, table)
unfolding heartbeat_sql
ghost_beats = refl

beaten_survives :
    reap_sql five_secs (15 * second) (beaten_table (12 * second))
    ≡ ok (0, beaten_table (12 * second))
unfolding reap_sql
beaten_survives = refl

abbrev reaped_table : Db Payload
reaped_table = record table { jobs = released (job_run 3) ∷ job_late ∷ job_b ∷ job_a ∷ [] }

dead_is_reaped : reap_sql five_secs (15 * second) table ≡ ok (1, reaped_table)
unfolding reap_sql
dead_is_reaped = refl

heartbeat_sql_one_example :
    ((◌≡◌ {A = ℕ} 1 1)
      × (held_by (some "w1") "w1" ≡ true)
      × (is_running (job_run 3).state ≡ true)
      × (find 4 (beaten_table (12 * second)).jobs ≡ some (beaten (12 * second) (job_run 3))))
    ⊎ ((◌≡◌ {A = ℕ} 1 0)
        × (held_by (some "w1") "w1" && is_running (job_run 3).state ≡ false)
        × (beaten_table (12 * second) ≡ table))
heartbeat_sql_one_example =
    heartbeat_sql_one "w1" (12 * second) 5 table {r = job_run 3} table-Below (head refl) owner_beats

heartbeat-reap_example :
    find 4 (beaten_table (12 * second)).jobs ≡ some (beaten (12 * second) (job_run 3))
heartbeat-reap_example =
    heartbeat-reap (4 ∷ []) "w1" five_secs (12 * second) (15 * second) 5 table {r = job_run 3}
      table-Below (head refl) refl owner_beats (omega arith) (omega arith) beaten_survives

reap-recovers_example :
    (find 4 reaped_table.jobs ≡ some (released (job_run 3)))
    × (claimable (15 * second) webhooks (released (job_run 3)) ≡ true)
reap-recovers_example =
    reap-recovers five_secs (15 * second) 5 table {r = job_run 3} table-Below (head refl)
      dead_is_reaped (8 * second) webhooks (omega arith) refl refl (omega arith) (omega arith)
      (omega arith) refl

within_lease : reap_sql five_secs (13 * second) table ≡ ok (0, table)
unfolding reap_sql
within_lease = refl

job_is_spared : find 4 table.jobs ≡ some (job_run 3)
job_is_spared =
    reap-spares five_secs (13 * second) 5 table {r = job_run 3} table-Below (head refl) within_lease
      (8 * second) (omega arith) refl (omega arith)

-- The same job on its last attempt.
abbrev last_table : Db Payload
last_table = record table { jobs = job_run 20 ∷ job_late ∷ job_b ∷ job_a ∷ [] }

last_is_not_reaped : reap_sql five_secs (900 * second) last_table ≡ ok (0, last_table)
unfolding reap_sql
last_is_not_reaped = refl

reap_exhausted_example : find 4 last_table.jobs ≡ some (job_run 20)
reap_exhausted_example =
    reap_exhausted five_secs (900 * second) 5 last_table {r = job_run 20} (omega arith) (head refl)
      last_is_not_reaped (omega arith)

-- `Duration::MAX`, meant as a lease that never runs out.
abbrev forever : Duration
forever = record { secs = 2 ^ 64 - 1; nanos = 999_999_999 }

forever_reaps : reap_sql forever (8 * second) table ≡ ok (1, reaped_table)
unfolding reap_sql
forever_reaps = refl

reap_wrapped_lease_example :
    (((2 ^ 64 - forever.secs) * second < 2 ^ 63)
      × (k : ℕ) × (db' : Db Payload) × (reap_sql forever (8 * second) table ≡ ok (k, db'))
      × (find 4 db'.jobs ≡ some (released (job_run 3))))
    ⊎ ((2 ^ 63 ≤ (2 ^ 64 - forever.secs) * second)
        × (reap_sql forever (8 * second) table ≡ err interval_out_of_range))
reap_wrapped_lease_example =
    reap_wrapped_lease forever (8 * second) 5 table {r = job_run 3} (8 * second) table-Below
      (head refl) (omega arith) (omega arith) refl refl (omega arith) (omega arith)

-- Nearer to 2^63 seconds the interval is too long.
abbrev halfway : Duration
halfway = record { secs = 2 ^ 63; nanos = 0 }

halfway_raises : reap_sql halfway (8 * second) table ≡ err interval_out_of_range
unfolding reap_sql
halfway_raises = refl
