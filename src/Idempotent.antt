-- ===== src/Idempotent.antt =====
-- examples/demo_idempotency.rs: the handler `process` and its two runs in `main`.
pub mod Effects
pub mod Handlers
pub mod Interleaved
use Prim.Native.String.{◌++◌ as append}
use skip_locked.Prelude.{
  ℕ, suc, List, [], ◌∷◌, Bool, true, false, String, str_eq, any, if◌then◌else◌, ◌==◌,
}
use skip_locked.Postgres.{Result, ok}
use skip_locked.Jobs.{Db}
use skip_locked.Session.{Stmt, M, Tx, pure, ◌>>=◌, ◌>>◌, begin, execute_in, commit, rollback}

pub data Outcome : Type 0 where
  applied duplicate : Outcome

-- `format!("{carrier_id}:{event_id}")`.
unfoldable pub event_key : String → String → String
event_key carrier_id event_id = append carrier_id (append ":" event_id)

module _ {P : Type 0} where
  abbrev pub processed : String → Db P → Bool
  processed key db = any (str_eq key) db.processed_events

  -- `INSERT INTO processed_events (key) … ON CONFLICT DO NOTHING`, with the rows affected.
  unfoldable pub insert_processed : String → Stmt P ℕ
  insert_processed key now db =
      if processed key db
      then ok (0, db)
      else ok (1, record db { processed_events = key ∷ db.processed_events })

  -- `INSERT INTO notifications (key)`.
  unfoldable pub insert_notification : String → Stmt P ℕ
  insert_notification key now db = ok (1, record db { notifications = key ∷ db.notifications })

  -- The side effect, which commits with the dedupe row.
  unfoldable pub apply_effect : String → Tx P → M P Outcome
  unfolding execute_in insert_notification commit
  apply_effect key tx = do
    (n, tx') ← execute_in (insert_notification key) tx
    commit tx'
    pure applied

  abbrev pub skip_duplicate : Tx P → M P Outcome
  skip_duplicate tx = rollback tx >> pure duplicate

  unfoldable pub process : String → String → M P Outcome
  unfolding event_key begin execute_in insert_processed apply_effect rollback
  process carrier_id event_id = do
    tx ← begin
    (rows_affected, tx') ← execute_in (insert_processed (event_key carrier_id event_id)) tx
    if rows_affected == 0
        then skip_duplicate tx'
        else apply_effect (event_key carrier_id event_id) tx'
