-- ===== src/Enqueue.antt =====
-- src/lib.rs: `enqueue`, `enqueue_at`, `notify_ready`, `enqueue_pool` and `mark_done`.
pub mod Atomic
pub mod Returned
use skip_locked.Prelude.{
  ℕ, suc, List, [], ◌∷◌, Bool, true, none, some, String, ◌==◌, count_if, if◌then◌else◌,
}
use skip_locked.Postgres.{Result, ok, err}
use skip_locked.Jobs.{Row, Db, ready, done, default_max_attempts}
use skip_locked.Jobs.Update.{update_where}
use skip_locked.Session.{
  Stmt, M, World, Tx, pure, ◌>>=◌, ◌>>◌, execute, begin, execute_in, commit, reply, drawn,
  next_wire,
}

module _ {P : Type 0} where
  -- The row that the column defaults of migrations/0001_jobs.sql make of an INSERT.
  abbrev pub new_row : ℕ → String → P → ℕ → Row P
  new_row id kind payload run_at = record {
    id = id;
    kind = kind;
    payload = payload;
    state = ready;
    run_at = run_at;
    locked_at = none;
    locked_by = none;
    attempts = 0;
    max_attempts = default_max_attempts;
    last_error = none;
  }

  abbrev pub insert_row : String → P → ℕ → Db P → Result (ℕ × Db P)
  insert_row kind payload run_at db = ok (
    db.next_id,
    record db { jobs = new_row db.next_id kind payload run_at ∷ db.jobs; next_id = suc db.next_id },
  )

  -- `INSERT INTO jobs (kind, payload) … RETURNING id`: `run_at` defaults to `now()`.
  unfoldable pub insert_job : String → P → Stmt P ℕ
  insert_job kind payload now db = insert_row kind payload now db

  -- `INSERT INTO jobs (kind, payload, run_at) … RETURNING id`.
  unfoldable pub insert_job_at : String → P → ℕ → Stmt P ℕ
  insert_job_at kind payload run_at now db = insert_row kind payload run_at db

  unfoldable pub enqueue : Tx P → String → P → M P (ℕ × Tx P)
  unfolding execute_in insert_job
  enqueue tx kind payload = execute_in (insert_job kind payload) tx

  unfoldable pub enqueue_at : Tx P → String → P → ℕ → M P (ℕ × Tx P)
  unfolding execute_in insert_job_at
  enqueue_at tx kind payload run_at = execute_in (insert_job_at kind payload run_at) tx

  unfoldable pub notify_ready : Tx P → M P (Tx P)
  notify_ready tx w = reply (next_wire w.wire) (drawn w) (ok (record tx { queued = true }), drawn w)

  unfoldable pub enqueue_pool : String → P → M P ℕ
  unfolding begin enqueue notify_ready commit
  enqueue_pool kind payload = do
    tx ← begin
    (id, tx') ← enqueue tx kind payload
    tx'' ← notify_ready tx'
    commit tx''
    pure id

  -- `SET state = 'done', locked_at = NULL, locked_by = NULL`.
  abbrev pub done_row : Row P → Row P
  done_row r = record r { state = done; locked_at = none; locked_by = none }

  -- `UPDATE jobs SET … WHERE id = $1`, with the rows affected.
  unfoldable pub mark_done_sql : ℕ → Stmt P ℕ
  mark_done_sql id now db = ok (
    count_if (λ r. r.id == id) db.jobs,
    record db { jobs = update_where (λ r. r.id == id) done_row db.jobs },
  )

  unfoldable pub mark_done : ℕ → M P (Unit {0})
  unfolding execute mark_done_sql
  mark_done id = execute (mark_done_sql id) >> pure tt
