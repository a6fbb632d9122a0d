-- ===== src/Lease.antt =====
-- src/lease.rs: `heartbeat` and `reap`.
pub mod Cutoff
pub mod Heartbeat
pub mod Reaper
use skip_locked.Prelude.{
  ℕ, suc, ◌+◌, ◌-◌, ◌*◌, ◌^◌, ◌%◌, List, [], ◌∷◌, Bool, true, false, Option, none, some, String,
  ltb, leb, if◌then◌else◌, ◌&&◌, contains, count_if,
}
use skip_locked.Prelude.Int.{ℤ, pos, negsuc, as_i64}
use skip_locked.Postgres.{Result, ok, err, interval_out_of_range, timestamp_out_of_range, ◌>>=◌}
use skip_locked.Jobs.{Row, Db, ready, is_running, second, held_by}
use skip_locked.Jobs.Update.{update_where}
use skip_locked.Session.{Stmt, M, execute}

-- `std::time::Duration`.
pub record Duration : Type 0 where
  pub secs : ℕ
  pub nanos : ℕ

-- `lease.as_secs() as i64`: the fraction is dropped and the cast wraps.
abbrev pub lease_secs : Duration → ℤ
lease_secs d = as_i64 d.secs

-- `now() - make_interval(secs => $1)`. An interval holds a 64-bit count of microseconds, and time is
-- counted from the earliest timestamp.
abbrev pub cutoff : ℤ → ℕ → Result ℕ
cutoff (pos s) now =
    if ltb (s * second) (2 ^ 63)
    then if leb (s * second) now then ok (now - s * second) else err timestamp_out_of_range
    else err interval_out_of_range
cutoff (negsuc s) now =
    if ltb (suc s * second) (2 ^ 63) then ok (now + suc s * second) else err interval_out_of_range

-- `locked_at < cutoff`, which a null does not satisfy.
abbrev pub locked_before : Option ℕ → ℕ → Bool
locked_before none c = false
locked_before (some t) c = ltb t c

module _ {P : Type 0} where
  -- `id = ANY($1) AND locked_by = $2 AND state = 'running'`.
  abbrev pub holds : List ℕ → String → Row P → Bool
  holds ids worker r = contains ids r.id && (held_by r.locked_by worker && is_running r.state)

  abbrev pub beaten : ℕ → Row P → Row P
  beaten now r = record r { locked_at = some now }

  unfoldable pub heartbeat_sql : List ℕ → String → Stmt P ℕ
  heartbeat_sql ids worker now db = ok (
    count_if (holds ids worker) db.jobs,
    record db { jobs = update_where (holds ids worker) (beaten now) db.jobs },
  )

  -- The result is `rows_affected()`.
  unfoldable pub heartbeat : List ℕ → String → M P ℕ
  unfolding execute heartbeat_sql
  heartbeat ids worker = execute (heartbeat_sql ids worker)

  -- `state = 'running' AND locked_at < cutoff AND attempts < max_attempts`.
  abbrev pub expired : ℕ → Row P → Bool
  expired c r = is_running r.state && (locked_before r.locked_at c && ltb r.attempts r.max_attempts)

  -- `SET state = 'ready', locked_at = NULL, locked_by = NULL`.
  abbrev pub released : Row P → Row P
  released r = record r { state = ready; locked_at = none; locked_by = none }

  unfoldable pub reap_sql : Duration → Stmt P ℕ
  reap_sql lease now db = cutoff (lease_secs lease) now >>= λ c.
      ok (
        count_if (expired c) db.jobs,
        record db { jobs = update_where (expired c) released db.jobs },
      )

  unfoldable pub reap : Duration → M P ℕ
  unfolding execute reap_sql
  reap lease = execute (reap_sql lease)
