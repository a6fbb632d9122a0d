-- ===== src/Retry.antt =====
-- src/retry.rs: `Class`, `HandlerError`, `classify`, `requeue` and `dead_letter`.
pub mod Backoff
pub mod Requeue
pub mod Reclaimed
pub mod DeadLetter
use Prim.Native.String.{◌++◌ as append}
use skip_locked.Prelude.{
  ℕ, suc, ◌+◌, ◌*◌, ◌^◌, List, [], ◌∷◌, ◌++◌, Bool, true, false, Option, none, some, String, ltb,
  leb, if◌then◌else◌, ◌&&◌, count_if, ◌==◌, any, min, map, select, length,
}
use skip_locked.Postgres.{Result, ok, err, float_out_of_range}
use skip_locked.Jobs.{Row, DeadRow, Db, ready, dead, second}
use skip_locked.Jobs.Update.{update_where, delete_where}
use skip_locked.Session.{Stmt, M, execute}

pub data Class : Type 0 where
  transient permanent : Class

pub data HandlerError : Type 0 where
  transient : String → HandlerError
  permanent : String → HandlerError

-- `Display`.
pub to_string : HandlerError → String
to_string (HandlerError.transient s) = append "transient: " s
to_string (HandlerError.permanent s) = append "permanent: " s

unfoldable pub classify : HandlerError → Class
classify (HandlerError.transient s) = Class.transient
classify (HandlerError.permanent s) = Class.permanent

-- `least(power(2, attempts), 3600)`, in seconds.
abbrev pub backoff_secs : ℕ → ℕ
backoff_secs attempts = min (2 ^ attempts) 3600

-- From this exponent on `power` raises: its result is a double.
abbrev pub max_exponent : ℕ
max_exponent = 1024

module _ {P : Type 0} where
  -- `id = $1 AND attempts < max_attempts`.
  abbrev pub retriable : ℕ → Row P → Bool
  retriable id r = r.id == id && ltb r.attempts r.max_attempts

  abbrev pub requeued : String → ℕ → Row P → Row P
  requeued last_error now r = record r {
    state = ready;
    run_at = now + backoff_secs r.attempts * second;
    locked_at = none;
    locked_by = none;
    last_error = some last_error;
  }

  unfoldable pub requeue_sql : ℕ → String → Stmt P ℕ
  requeue_sql id last_error now db =
      if any (λ r. retriable id r && leb max_exponent r.attempts) db.jobs
      then err float_out_of_range
      else ok (
        count_if (retriable id) db.jobs,
        record db { jobs = update_where (retriable id) (requeued last_error now) db.jobs },
      )

  -- The result is `rows_affected()`.
  unfoldable pub requeue : ℕ → String → M P ℕ
  unfolding execute requeue_sql
  requeue id last_error = execute (requeue_sql id last_error)

  -- The row of `jobs_dead` that the CTE makes of a deleted one; the lock columns are kept.
  abbrev pub dead_row : String → ℕ → Row P → DeadRow P
  dead_row last_error now r = record {
    row = record r { state = dead; last_error = some last_error };
    died_at = now;
  }

  unfoldable pub dead_letter_sql : ℕ → String → Stmt P ℕ
  dead_letter_sql id last_error now db =
      let gone = select (λ r. r.id == id) db.jobs in
      ok (
        length gone,
        record db {
          jobs = delete_where (λ r. r.id == id) db.jobs;
          jobs_dead = map (dead_row last_error now) gone ++ db.jobs_dead;
        },
      )

  unfoldable pub dead_letter : ℕ → String → M P ℕ
  unfolding execute dead_letter_sql
  dead_letter id last_error = execute (dead_letter_sql id last_error)
