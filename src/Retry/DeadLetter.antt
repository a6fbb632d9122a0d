-- ===== src/Retry/DeadLetter.antt =====
-- A dead-lettered job leaves `jobs` and lands in `jobs_dead`.
use skip_locked.Prelude.{ℕ, ◌≡◌, ◌≢◌, refl, ◌∷◌, none, some, String, arith}
use skip_locked.Postgres.{ok}
use skip_locked.Jobs.{Row, Db}
use skip_locked.Jobs.Find.{Below, find, select_id, find-delete_where, delete_where_absent}
use skip_locked.Retry.{dead_row, dead_letter_sql}

module _ {P : Type 0} (id : ℕ) (error : String) (now n : ℕ) (db : Db P) (b : Below n db.jobs) where
  -- The statement never raises. If the job is there it leaves `jobs` and heads `jobs_dead`, with the
  -- answer 1; if it is not, nothing changes and the answer is 0. No other job is touched.
  pub dead_letter_sql_lem :
      (k : ℕ) × (db' : Db P) × (dead_letter_sql id error now db ≡ ok (k, db'))
      × (find id db'.jobs ≡ none)
      × ((j : ℕ) → j ≢ id → find j db'.jobs ≡ find j db.jobs)
      × ((r : Row P)
          → find id db.jobs ≡ some r
          → (k ≡ 1) × (db'.jobs_dead ≡ dead_row error now r ∷ db.jobs_dead))
      × (find id db.jobs ≡ none → (k ≡ 0) × (db' ≡ db))
  unfolding dead_letter_sql
  dead_letter_sql_lem = (
    _,
    _,
    refl,
    ground (arith, find-delete_where id id db.jobs),
    λ j h. ground (arith, find-delete_where id j db.jobs),
    λ r h. ground (arith, select_id id n db.jobs b),
    λ h. ground (arith, select_id id n db.jobs b, delete_where_absent id db.jobs h),
  )
