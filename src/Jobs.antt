-- ===== src/Jobs.antt =====
-- The tables of migrations/0001_jobs.sql and the statements' view of them: a table is a list of
-- rows, the newest first, and time is a count of microseconds.
pub mod Update
pub mod Find
use skip_locked.Prelude.{
  ℕ, zero, suc, ◌+◌, ◌*◌, ◌≡◌, List, [], ◌∷◌, Bool, true, false, Option, none, some, String, str_eq,
  if◌then◌else◌, ◌||◌, any, length,
}

-- The column `state` is a text; these are the values that the source writes.
pub data JobState : Type 0 where
  ready running done dead : JobState

abbrev pub is_ready : JobState → Bool
is_ready ready = true
is_ready running = false
is_ready done = false
is_ready dead = false

abbrev pub is_running : JobState → Bool
is_running ready = false
is_running running = true
is_running done = false
is_running dead = false

-- A row of `jobs`; `P` is the type of a `jsonb` payload.
pub record Row (P : Type 0) : Type 0 where
  pub id : ℕ
  pub kind : String
  pub payload : P
  pub state : JobState
  pub run_at : ℕ
  pub locked_at : Option ℕ
  pub locked_by : Option String
  pub attempts : ℕ
  pub max_attempts : ℕ
  pub last_error : Option String

-- A row of `jobs_dead`: the same columns, and when it died.
pub record DeadRow (P : Type 0) : Type 0 where
  pub row : Row P
  pub open row use *
  pub died_at : ℕ

-- The three tables, the `notifications` of examples/demo_idempotency.rs (the keys of its side
-- effects), the identity sequence of `jobs` and the number of `jobs_ready` notifications
-- that were delivered.
pub record Db (P : Type 0) : Type 0 where
  pub jobs : List (Row P)
  pub jobs_dead : List (DeadRow P)
  pub processed_events : List String
  pub next_id : ℕ
  pub notifications : List String
  pub notified : ℕ

abbrev pub empty_db : {P : Type 0} → Db P
empty_db = record {
  jobs = [];
  jobs_dead = [];
  processed_events = [];
  next_id = 1;
  notifications = [];
  notified = 0;
}

-- `interval '1 second'`.
abbrev pub second : ℕ
second = 1_000_000

-- `DEFAULT 20`.
abbrev pub default_max_attempts : ℕ
default_max_attempts = 20

-- The `Job` of src/lib.rs.
pub record Job (P : Type 0) : Type 0 where
  pub id : ℕ
  pub kind : String
  pub payload : P
  pub attempts : ℕ

-- `RETURNING id, kind, payload, attempts`, decoded by `FromRow`.
abbrev pub job_of : {P : Type 0} → Row P → Job P
job_of r = record { id = r.id; kind = r.kind; payload = r.payload; attempts = r.attempts }

-- `locked_by = w`, which a null does not satisfy.
abbrev pub held_by : Option String → String → Bool
held_by none w = false
held_by (some v) w = str_eq v w
