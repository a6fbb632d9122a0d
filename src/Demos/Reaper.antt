-- ===== src/Demos/Reaper.antt =====
-- examples/demo_reaper.rs: its helpers and its three scenes, up to the assertions.
use skip_locked.Prelude.{ℕ, List, [], ◌∷◌, Bool, some, String, ◌==◌, select}
use skip_locked.Prelude.Int.{ℤ, pos}
use skip_locked.Postgres.{Result, ok, err, row_not_found}
use skip_locked.Postgres.OrderBy.{OrderBy}
use skip_locked.Postgres.Json.{Json}
use skip_locked.Jobs.{Row, Db, Job, JobState, second}
use skip_locked.Jobs.Update.{update_where}
use skip_locked.Session.{Stmt, M, pure, ◌>>=◌, ◌>>◌, execute, begin, commit}
use skip_locked.Enqueue.{enqueue}
use skip_locked.Claim.{claim_batch}
use skip_locked.Lease.{Duration, heartbeat, reap, cutoff}
use skip_locked.Demos.{event_payload, truncate}

abbrev pub lease : Duration
lease = record { secs = 1; nanos = 0 }

abbrev pub demo_kinds : List String
demo_kinds = "webhook.normalize" ∷ []

module _ {P : Type 0} where
  unfoldable pub reset : M P (Unit {0})
  unfolding execute
  reset = execute truncate

  unfoldable pub seed_one : Json P → String → String → M P ℕ
  unfolding begin enqueue commit
  seed_one json carrier event = do
    tx ← begin
    (id, tx') ← enqueue tx "webhook.normalize" (event_payload json carrier event)
    commit tx'
    pure id

  -- `UPDATE jobs SET locked_at = now() - make_interval(secs => $2) WHERE id = $1`.
  unfoldable pub age_lock_sql : ℕ → ℤ → Stmt P (Unit {0})
  age_lock_sql id secs now db = aged (cutoff secs now)
    where
      aged : Result ℕ → Result (Unit {0} × Db P)
      aged (ok t) = ok (
        tt,
        record db {
          jobs = update_where (λ r. r.id == id) (λ r. record r { locked_at = some t }) db.jobs;
        },
      )
      aged (err e) = err e

  unfoldable pub age_lock : ℕ → ℤ → M P (Unit {0})
  unfolding execute age_lock_sql
  age_lock id secs = execute (age_lock_sql id secs)

  abbrev first_state : List (Row P) → Result JobState
  first_state [] = err row_not_found
  first_state (r ∷ rs) = ok r.state

  abbrev with_db : Db P → Result JobState → Result (JobState × Db P)
  with_db db (ok s) = ok (s, db)
  with_db db (err e) = err e

  unfoldable pub state_of : ℕ → M P JobState
  unfolding execute
  state_of id = execute (λ now db. with_db db (first_state (select (λ r. r.id == id) db.jobs)))

  abbrev pub job_ids : List (Job P) → List ℕ
  job_ids [] = []
  job_ids (j ∷ js) = j.id ∷ job_ids js

  module _ (json : Json P) (by_run_at : OrderBy (Row P) (λ r. r.run_at)) (held : ℕ → Bool) where
    -- The job, the ids that the first worker claimed, the rows that the reaper resurrected and the ids that the second
    -- worker claimed.
    unfoldable pub scene_1 : M P (ℕ × List ℕ × ℕ × List ℕ)
    unfolding reset seed_one claim_batch age_lock reap
    scene_1 = do
      reset
      id ← seed_one json "A" "evt-1"
      claimed ← claim_batch by_run_at held demo_kinds (pos 1) "worker-slow"
      age_lock id (pos 5)
      resurrected ← reap lease
      second ← claim_batch by_run_at held demo_kinds (pos 1) "worker-2"
      pure (id, job_ids claimed, resurrected, job_ids second)

    -- The owner's beats, the rows resurrected, another worker's beats.
    unfoldable pub scene_2 : M P (ℕ × ℕ × ℕ)
    unfolding reset seed_one claim_batch age_lock reap heartbeat
    scene_2 = do
      reset
      id ← seed_one json "B" "evt-2"
      claim_batch by_run_at held demo_kinds (pos 1) "worker-live"
      age_lock id (pos 5)
      beat ← heartbeat (id ∷ []) "worker-live"
      resurrected ← reap lease
      stale_beat ← heartbeat (id ∷ []) "worker-ghost"
      pure (beat, resurrected, stale_beat)

    unfoldable pub scene_3 : M P (ℕ × JobState)
    unfolding reset seed_one claim_batch age_lock reap state_of
    scene_3 = do
      reset
      id ← seed_one json "C" "evt-3"
      claim_batch by_run_at held demo_kinds (pos 1) "worker-dead"
      age_lock id (pos 5)
      resurrected ← reap lease
      st ← state_of id
      pure (resurrected, st)
