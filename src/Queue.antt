-- ===== src/Queue.antt =====
-- The queue as a whole: any statement of the crate, by any session, in any order.
pub mod Lawful
pub mod Steps
pub mod Runs
pub mod Conserved
pub mod Lifecycle
pub mod Moves
pub mod Lives
pub mod Settled
use skip_locked.Prelude.{ℕ, suc, ◌+◌, List, [], ◌∷◌, Bool, true, false, String}
use skip_locked.Prelude.Int.{ℤ}
use skip_locked.Postgres.{Result, ok, err}
use skip_locked.Postgres.OrderBy.{OrderBy}
use skip_locked.Postgres.Json.{Json}
use skip_locked.Jobs.{Row, Db}
use skip_locked.Session.{Stmt}
use skip_locked.Enqueue.{insert_job, insert_job_at, mark_done_sql}
use skip_locked.Claim.{claim_batch_sql}
use skip_locked.Claim.Fair.{Candidate, fair_claim_sql}
use skip_locked.Lease.{Duration, heartbeat_sql, reap_sql}
use skip_locked.Retry.{requeue_sql, dead_letter_sql}

-- One statement. A claim brings the order that Postgres gives equal times, and the rows that other
-- transactions hold at that moment.
pub data Op (P : Type 0) : Type 0 where
  insert : String → P → Op P
  insert_at : String → P → ℕ → Op P
  claim : OrderBy (Row P) (λ r. r.run_at) → (ℕ → Bool) → List String → ℤ → String → Op P
  claim_fairly :
      Json P
      → OrderBy (Row P) (λ r. r.run_at)
      → OrderBy Candidate (λ c. c.run_at)
      → (ℕ → Bool)
      → List String
      → ℤ
      → ℤ
      → String
      → Op P
  finish : ℕ → Op P
  beat : List ℕ → String → Op P
  reaps : Duration → Op P
  retry : ℕ → String → Op P
  bury : ℕ → String → Op P

module _ {P : Type 0} where
  abbrev pub IsClaim : Op P → Type 0
  IsClaim (claim order held kinds n worker) = Unit {0}
  IsClaim (claim_fairly json order window held kinds size share worker) = Unit {0}
  IsClaim _ = ⊥

  -- What a statement leaves behind; one that raises leaves the database as it was.
  abbrev pub after : {A : Type 0} → Db P → Result (A × Db P) → Db P
  after db (ok (a, db')) = db'
  after db (err e) = db

  unfoldable pub apply : Op P → ℕ → Db P → Db P
  apply (insert kind payload) now db = after db (insert_job kind payload now db)
  apply (insert_at kind payload run_at) now db = after db (insert_job_at kind payload run_at now db)
  apply (claim order held kinds n worker) now db =
      after db (claim_batch_sql order held kinds n worker now db)
  apply (claim_fairly json order window held kinds size share worker) now db =
      after db (fair_claim_sql json order window held kinds size share worker now db)
  apply (finish id) now db = after db (mark_done_sql id now db)
  apply (beat ids worker) now db = after db (heartbeat_sql ids worker now db)
  apply (reaps lease) now db = after db (reap_sql lease now db)
  apply (retry id error) now db = after db (requeue_sql id error now db)
  apply (bury id error) now db = after db (dead_letter_sql id error now db)

  -- A history: statements with the times at which they run.
  unfoldable pub run : List (ℕ × Op P) → Db P → Db P
  unfolding apply
  run [] db = db
  run ((now, op) ∷ ops) db = run ops (apply op now db)
