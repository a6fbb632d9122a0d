-- ===== src/Tests/ServiceTests.antt =====
-- A worker process from its start to its end, with a job that another session enqueues, and a reaper beside it.
use skip_locked.Prelude.{◌≡◌, refl, [], ◌∷◌, true, false, none}
use skip_locked.Prelude.Int.{pos}
use skip_locked.Postgres.{ok}
use skip_locked.Postgres.OrderBy.{insertion_sort}
use skip_locked.Jobs.{Job, Row, empty_db, done}
use skip_locked.Session.{delivered}
use skip_locked.Enqueue.{insert_job, mark_done_sql}
use skip_locked.Lease.{reap_sql}
use skip_locked.Claim.{claim_batch, claim_batch_sql}
use skip_locked.Demos.Example.{handle}
use skip_locked.Queue.{insert, reaps, apply}
use skip_locked.Queue.Runs.{empty_db-Inv}
use skip_locked.Worker.{WorkerConfig, step, cancel, listens, spawn, drained, finished}
use skip_locked.Service.{
  Service, internal, claim_arm, drop_claim, task_ends, act, own, other, Reach, here, next, launch,
  mine_in,
}
use skip_locked.Service.Accounted.{Accounted, Reach-Accounted, shutdown-clean}
use skip_locked.Tests.Data.{Payload, from_carrier, by_run_at, nobody, webhooks}

abbrev cfg : WorkerConfig
cfg = record {
  worker_id = "w1";
  kinds = webhooks;
  batch = pos 4;
  fanout_concurrency = 2;
  poll_interval = record { secs = 1; nanos = 0 };
  drain_grace = record { secs = 30; nanos = 0 };
}

abbrev job : Job Payload
job = record { id = 1; kind = "webhook"; payload = from_carrier "A"; attempts = 1 }

abbrev enqueued : Service Payload
enqueued = record (launch cfg empty_db) {
  db = apply (insert "webhook" (from_carrier "A")) 10 empty_db;
}

abbrev done_job : Row Payload
done_job = record {
  id = 1;
  kind = "webhook";
  payload = from_carrier "A";
  state = done;
  run_at = 10;
  locked_at = none;
  locked_by = none;
  attempts = 1;
  max_attempts = 20;
  last_error = none;
}

abbrev ended : Service Payload
ended = record {
  worker = record {
    phase = finished (ok tt);
    cancelled = true;
    permits = 2;
    in_flight = [];
    claimed = job ∷ [];
    handled = job ∷ [];
    abandoned = [];
  };
  db = record empty_db { jobs = done_job ∷ []; next_id = 2 };
  stranded = [];
}

-- The job is claimed, handled and done; the token drops the next claim.
reach : Reach cfg by_run_at empty_db ended
unfolding act apply insert_job insertion_sort claim_batch claim_batch_sql handle mark_done_sql
    reap_sql step
reach =
    let s1 : Reach cfg by_run_at empty_db enqueued =
      next here (other 10 (insert "webhook" (from_carrier "A")) refl refl) in
    let s2 = next s1 (own (internal (listens (ok tt))) refl) in
    let s3 = next s2 (own (claim_arm nobody 20 delivered) refl) in
    let s4 = next s3 (own (internal spawn) refl) in
    let s45 = next s4 (other 25 (reaps (record { secs = 0; nanos = 0 })) refl refl) in
    let s5 = next s45 (own (task_ends 0 30 delivered) refl) in
    let s6 = next s5 (own (internal cancel) refl) in
    let s7 = next s6 (own (drop_claim nobody 40 false) refl) in
    next s7 (own (internal drained) refl)

Reach-Accounted_example : Accounted cfg by_run_at ended
Reach-Accounted_example = Reach-Accounted cfg by_run_at empty_db-Inv (λ i. refl) reach

shutdown-clean_example : mine_in cfg 1 ended.db ≡ 0
shutdown-clean_example =
    shutdown-clean cfg by_run_at (ok tt) empty_db-Inv (λ i. refl) reach refl refl refl refl 1
