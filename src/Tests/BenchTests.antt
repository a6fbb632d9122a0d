-- ===== src/Tests/BenchTests.antt =====
-- The loops of the benchmarks on a table of two jobs, and the probes of the pooler's demo.
use skip_locked.Prelude.{
  ℕ, zero, suc, ◌+◌, ◌*◌, ◌≤◌, ◌≡◌, refl, List, [], ◌∷◌, true, Option, some, none, String, arith,
  count_if, false,
}
use skip_locked.Prelude.Int.{pos}
use skip_locked.Postgres.{ok}
use skip_locked.Postgres.OrderBy.{insertion_sort}
use skip_locked.Jobs.{Row, Db, empty_db, job_of}
use skip_locked.Jobs.Update.{update_where}
use skip_locked.Enqueue.{insert_job, mark_done_sql, done_row}
use skip_locked.Claim.{free, claimed_row, update_claimed, lock_rows}
use skip_locked.Queue.{insert, run}
use skip_locked.Queue.Lawful.{Inv}
use skip_locked.Queue.Runs.{run-Inv, empty_db-Inv}
use skip_locked.Bench.Loops.{process_until_empty}
use skip_locked.Bench.Processed.{process_until_empty-total}
use skip_locked.Bench.Turn.{processed_row, quiet}
use skip_locked.Bench.Crew.{Crew, CrewTurn, begins, answers, marks, crew_of, crew_turn, crew_turns}
use skip_locked.Bench.Crew.Rows.{is_open}
use skip_locked.Bench.Crew.Marks.{is_finished}
use skip_locked.Bench.Crew.Drains.{length-crew_turns, crew_turns_drained, crew_turns_completed}
use skip_locked.Demos.Bouncer.{cached_probes, fixed_probes}
use skip_locked.Tests.Data.{Payload, from_carrier, ready_job, by_run_at, nobody, webhooks}

abbrev pair : Db Payload
pair = record empty_db {
  jobs = ready_job 2 11 (from_carrier "B") ∷ ready_job 1 10 (from_carrier "A") ∷ [];
  next_id = 3;
}

abbrev pair_done : Db Payload
pair_done = record pair {
  jobs = update_where (free nobody 100 webhooks) (processed_row 100 "w") pair.jobs;
}

pair_is_processed :
    process_until_empty by_run_at nobody 3 webhooks (pos 1) "w" 0 (quiet pair 100)
    ≡ (ok (some 2), quiet pair_done 100)
pair_is_processed =
    process_until_empty-total by_run_at nobody webhooks 1 100 3 "w" 3 0 pair (omega arith)
      (omega arith) refl (omega arith)

-- Two workers each claim a job at the same time, and then each finds none.
abbrev crew_run : List CrewTurn
crew_run =
    begins 0 0
    ∷ begins 0 1
    ∷ answers 1
    ∷ answers 0
    ∷ begins 0 2
    ∷ begins 0 3
    ∷ answers 0
    ∷ answers 0
    ∷ []

abbrev crew : List String
crew = "claim-0" ∷ "claim-1" ∷ []

abbrev second_claimed : Row Payload
second_claimed = claimed_row 101 "claim-1" (ready_job 2 11 (from_carrier "B"))

abbrev first_claimed : Row Payload
first_claimed = claimed_row 100 "claim-0" (ready_job 1 10 (from_carrier "A"))

abbrev crew_end : Crew Payload
crew_end = record {
  shared = record {
    db = record pair { jobs = second_claimed ∷ first_claimed ∷ [] };
    flights = [];
    returned = job_of second_claimed ∷ job_of first_claimed ∷ [];
  };
  waiting = [];
  marking = [];
  ended = 2;
  counter = 2;
}

crew_runs : crew_turns by_run_at webhooks 1 100 false crew_run (crew_of crew pair) ≡ some crew_end
unfolding crew_turns insertion_sort update_claimed lock_rows
crew_runs = refl

crew_stuck : (x : CrewTurn) → crew_turn by_run_at webhooks 1 100 false x crew_end ≡ none
unfolding crew_turn
crew_stuck (begins i d) = refl
crew_stuck (answers i) = refl
crew_stuck (marks i) = refl

pair-Inv : Inv pair
unfolding run insert_job
pair-Inv =
    run-Inv
      ((10, insert "webhook" (from_carrier "A")) ∷ (11, insert "webhook" (from_carrier "B")) ∷ [])
      empty_db empty_db-Inv

crew_run_is_short : 8 ≤ 2 * (2 + 2) + 0
crew_run_is_short =
    length-crew_turns by_run_at webhooks 1 100 false crew pair crew_run crew_end (omega arith)
      pair-Inv refl crew_runs

crew_has_drained :
    (crew_end.counter ≡ 2) × (count_if (is_open webhooks) crew_end.shared.db.jobs ≡ 0)
crew_has_drained =
    crew_turns_drained by_run_at webhooks 1 100 false crew pair crew_run crew_end (omega arith)
      pair-Inv refl crew_runs (omega arith) crew_stuck

-- One worker that also completes its jobs, two to a batch.
abbrev lone_run : List CrewTurn
lone_run = begins 0 0 ∷ answers 0 ∷ marks 0 ∷ marks 0 ∷ marks 0 ∷ begins 0 1 ∷ answers 0 ∷ []

abbrev lone : List String
lone = "proc-0" ∷ []

abbrev lone_end : Crew Payload
lone_end = record {
  shared = record {
    db = record pair {
      jobs =
          done_row (claimed_row 100 "proc-0" (ready_job 2 11 (from_carrier "B")))
          ∷ done_row (claimed_row 100 "proc-0" (ready_job 1 10 (from_carrier "A")))
          ∷ [];
    };
    flights = [];
    returned =
        job_of (claimed_row 100 "proc-0" (ready_job 2 11 (from_carrier "B")))
        ∷ job_of (claimed_row 100 "proc-0" (ready_job 1 10 (from_carrier "A")))
        ∷ [];
  };
  waiting = [];
  marking = [];
  ended = 1;
  counter = 2;
}

lone_runs : crew_turns by_run_at webhooks 2 100 true lone_run (crew_of lone pair) ≡ some lone_end
unfolding crew_turns insertion_sort update_claimed lock_rows mark_done_sql
lone_runs = refl

lone_stuck : (x : CrewTurn) → crew_turn by_run_at webhooks 2 100 true x lone_end ≡ none
unfolding crew_turn
lone_stuck (begins i d) = refl
lone_stuck (answers i) = refl
lone_stuck (marks i) = refl

lone_has_completed : count_if (is_finished webhooks) lone_end.shared.db.jobs ≡ 2
lone_has_completed =
    crew_turns_completed by_run_at webhooks 2 100 true lone pair lone_run lone_end (omega arith)
      pair-Inv refl lone_runs (omega arith) lone_stuck refl

-- The third probe meets a statement that the connection does not know; the second one's error is another.
abbrev probe : ℕ → Option String
probe (suc zero) = some "timeout"
probe (suc (suc zero)) = some "prepared statement \"s_1\" does not exist"
probe i = none

cached_probes_runs :
    cached_probes (λ s. s) probe 5 0 ""
    ≡ record { trap_hit = true; last_err = "prepared statement \"s_1\" does not exist" }
unfolding cached_probes
cached_probes_runs = refl

fixed_probes_runs : fixed_probes probe 3 0 0 ≡ none
unfolding fixed_probes
fixed_probes_runs = refl
