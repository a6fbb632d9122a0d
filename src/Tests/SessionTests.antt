-- ===== src/Tests/SessionTests.antt =====
-- Sessions and a worker process at work, and what a claim returns.
use mathlib.Core.List.Memᴰ.{head, tail}
use skip_locked.Prelude.{◌≤◌, ◌≡◌, refl, some, none, Memᴰ, [], ◌∷◌, map}
use skip_locked.Prelude.Int.{pos}
use skip_locked.Postgres.OrderBy.{insertion_sort}
use skip_locked.Jobs.{Row, empty_db, running}
use skip_locked.Enqueue.{insert_job}
use skip_locked.Queue.{Op, insert, apply}
use skip_locked.Queue.Runs.{empty_db-Inv}
use skip_locked.Claimers.{Shared, lock, commit_flight, move}
use skip_locked.Claimers.Steps.{
  Step, claiming, claiming_fairly, lock_fairly, answer, statement, Reach, here, next, start, served,
}
use skip_locked.Claimers.Serial.{Serial, Reach-Serial}
use skip_locked.Claimers.Counted.{executions_bounded}
use skip_locked.Claimers.Disjoint.{returned_times}
use skip_locked.Queue.Conserved.{empty_db-IsWhole}
use skip_locked.Queue.Lifecycle.{waiting, working, stage_of, Goes}
use skip_locked.Claimers.Lives.{IsOf, Step-Goes}
use skip_locked.Tests.Data.{Payload, from_carrier, by_run_at, by_window, webhooks}
use skip_locked.Postgres.Json.{text_objects}

-- A job is enqueued, and while a claim has it locked another is enqueued and the reaper runs.
abbrev state1 : Shared Payload
state1 = served 10 (insert "webhook" (from_carrier "A")) (start empty_db)

abbrev state2 : Shared Payload
state2 = move by_run_at (lock "w1" webhooks 5 20) state1

abbrev state3 : Shared Payload
state3 = served 25 (insert "webhook" (from_carrier "B")) state2

-- A fair claim then locks the second job, since the first is taken.
abbrev state4 : Shared Payload
state4 = lock_fairly text_objects by_run_at by_window webhooks (pos 1) (pos 1) "w2" 30 state3

abbrev state5 : Shared Payload
state5 = move by_run_at (commit_flight 1) state4

abbrev state6 : Shared Payload
state6 = move by_run_at (commit_flight 0) state5

reach3 : Reach empty_db state3
reach3 =
    next
      (next (next here (statement 10 (insert "webhook" (from_carrier "A")) tt))
        (claiming by_run_at (lock "w1" webhooks 5 20)))
      (statement 25 (insert "webhook" (from_carrier "B")) tt)

reach4 : Reach empty_db state4
reach4 =
    next reach3 (claiming_fairly text_objects by_run_at by_window webhooks (pos 1) (pos 1) "w2" 30)

last_commit : Step state4 state5
last_commit = claiming by_run_at (commit_flight 1)

reach6 : Reach empty_db state6
reach6 = next (next reach4 last_commit) (claiming by_run_at (commit_flight 0))

-- The first job waits until the commit of its claim.
first_starts : (stage_of 1 state4.db ≡ waiting 0) × (stage_of 1 state5.db ≡ working (some "w1") 1)
unfolding move lock_fairly insertion_sort apply insert_job
first_starts = (refl, refl)

Step-Goes_example :
    (op : Op Payload) × IsOf last_commit op
    × Goes 1 op (stage_of 1 state4.db) (stage_of 1 state5.db)
Step-Goes_example = Step-Goes 1 empty_db-Inv (empty_db-IsWhole Payload) reach4 last_commit

both_returned : map (λ j. j.id) state6.returned ≡ 2 ∷ 1 ∷ []
unfolding move lock_fairly insertion_sort apply insert_job answer
both_returned = refl

Reach-Serial_example : Serial empty_db state6
Reach-Serial_example = Reach-Serial empty_db-Inv reach6

-- The row of the first job, which the claim took.
abbrev taken : Row Payload
taken = record {
  id = 1;
  kind = "webhook";
  payload = from_carrier "A";
  state = running;
  run_at = 10;
  locked_at = some 20;
  locked_by = some "w1";
  attempts = 1;
  max_attempts = 20;
  last_error = none;
}

taken-mem : Memᴰ taken state6.db.jobs
unfolding move lock_fairly insertion_sort apply insert_job answer
taken-mem = tail (head refl)

executions_bounded_example : (returned_times 1 state6 ≡ 1) × (1 ≤ 20)
executions_bounded_example = executions_bounded reach6 taken-mem
