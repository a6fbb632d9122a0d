-- ===== src/Demos/Rerun.antt =====
-- examples/demo_idempotency.rs: `main`, up to its assertions.
use skip_locked.Prelude.{ℕ, [], String, str_eq, count_if}
use skip_locked.Postgres.{ok}
use skip_locked.Session.{Stmt, M, pure, ◌>>=◌, ◌>>◌, execute}
use skip_locked.Idempotent.{Outcome, event_key, process}
use skip_locked.Demos.{truncate}

module _ {P : Type 0} where
  -- `TRUNCATE notifications RESTART IDENTITY`.
  abbrev pub truncate_notifications : Stmt P (Unit {0})
  truncate_notifications now db = ok (tt, record db { notifications = [] })

  -- `SELECT count(*) FROM notifications WHERE key = $1`.
  abbrev pub count_effects : String → Stmt P ℕ
  count_effects key now db = ok (count_if (str_eq key) db.notifications, db)

  unfoldable pub run_twice : String → String → M P (Outcome × Outcome × ℕ)
  unfolding execute process event_key
  run_twice carrier_id event_id = do
    execute truncate
    execute truncate_notifications
    first ← process carrier_id event_id
    second ← process carrier_id event_id
    effects ← execute (count_effects (event_key carrier_id event_id))
    pure (first, second, effects)
