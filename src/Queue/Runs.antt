-- ===== src/Queue/Runs.antt =====
-- What holds of the queue after any history.
use skip_locked.Prelude.{ℕ, ◌≤◌, List, [], ◌∷◌, Memᴰ, All-mem}
use skip_locked.Jobs.{Row, Db, empty_db}
use skip_locked.Queue.{Op, apply, run}
use skip_locked.Queue.Lawful.{IsLawful, Inv}
use skip_locked.Queue.Steps.{apply-Inv}

module _ {P : Type 0} where
  -- Every history keeps keys unique and every row lawful.
  pub run-Inv : (ops : List (ℕ × Op P)) (db : Db P) → Inv db → Inv (run ops db)
  unfolding run
  run-Inv [] db v = v
  run-Inv ((now, op) ∷ ops) db v = run-Inv ops (apply op now db) (apply-Inv op now db v)

  pub empty_db-Inv : Inv (empty_db {P = P})
  empty_db-Inv = record { fresh = tt; lawful = tt }

  -- Whatever the workers do, no job is attempted more often than `max_attempts`.
  pub attempts_bounded :
      (ops : List (ℕ × Op P)) {r : Row P}
      → Memᴰ r (run ops empty_db).jobs
      → r.attempts ≤ r.max_attempts
  attempts_bounded ops m =
      (All-mem IsLawful (run ops empty_db).jobs (run-Inv ops empty_db empty_db-Inv).lawful
        m).bounded
