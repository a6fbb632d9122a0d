-- ===== src/Worker.antt =====
-- src/worker.rs: `WorkerConfig` and `run_worker`, as a state machine. An event is what the runtime
-- does next: an arm of a `select!` that completes, a permit that is granted, a task that ends.
pub mod Permits
pub mod Handled
pub mod Drain
pub mod Stuck
pub mod Live
use Prim.Native.String.{◌++◌ as append}
use skip_locked.Prelude.{
  ℕ, zero, suc, ◌-◌, ◌+◌, ◌%◌, ◌^◌, List, [], ◌∷◌, ◌++◌, Bool, true, false, Option, some, none,
  String, leb, if◌then◌else◌,
}
use skip_locked.Prelude.Int.{ℤ, pos}
use skip_locked.Postgres.{Error, Result, ok, err}
use skip_locked.Jobs.{Job}
use skip_locked.Lease.{Duration}

pub record WorkerConfig : Type 0 where
  pub worker_id : String
  pub kinds : List String
  pub batch : ℤ
  pub fanout_concurrency : ℕ
  pub poll_interval : Duration
  pub drain_grace : Duration

-- `WorkerConfig::default()`, for the text of a fresh UUID.
pub default_config : String → WorkerConfig
default_config uuid = record {
  worker_id = append "worker-" uuid;
  kinds = "webhook.normalize" ∷ [];
  batch = pos 64;
  fanout_concurrency = 32;
  poll_interval = record { secs = 1; nanos = 0 };
  drain_grace = record { secs = 30; nanos = 0 };
}

-- Where the function stands: at the listener's set-up, in the outer `select!` with a claim under way, in the inner one, in the
-- loop over a batch with these jobs left, at `acquire_many`, or returned.
pub data Phase (P : Type 0) : Type 0 where
  connecting : Phase P
  selecting : Phase P
  waiting : Phase P
  spawning : Job P → List (Job P) → Phase P
  draining : Phase P
  finished : Result (Unit {0}) → Phase P

-- `permits` are those free; a task in flight holds one. The other lists record what happened:
-- the jobs that the database gave the worker, those handed to the handler, and those of a claim
-- whose future was dropped after the database had run it.
pub record Worker (P : Type 0) : Type 0 where
  pub phase : Phase P
  pub cancelled : Bool
  pub permits : ℕ
  pub in_flight : List (Job P)
  pub claimed : List (Job P)
  pub handled : List (Job P)
  pub abandoned : List (Job P)

pub data Event (P : Type 0) : Type 0 where
  -- `token.cancel()`, by the signal handler.
  cancel : Event P
  -- `PgListener::connect_with` and `listen` return.
  listens : Result (Unit {0}) → Event P
  -- The outer `select!`: the token's arm, which drops the claim (the jobs that it had claimed by
  -- then), or the claim's arm.
  break_claim : List (Job P) → Event P
  claims : Result (List (Job P)) → Event P
  -- The inner `select!`: the token's arm, the listener's, or the timer's.
  break_wait : Event P
  notification : Event P
  poll_timeout : Event P
  -- A permit is granted and the next task spawned.
  spawn : Event P
  -- The task at this place in flight ends and drops its permit.
  ends : ℕ → Event P
  -- `acquire_many` completes, or the timeout around it.
  drained : Event P
  grace_over : Event P

-- `cfg.fanout_concurrency as u32`.
abbrev pub drain_total : WorkerConfig → ℕ
drain_total cfg = cfg.fanout_concurrency % 2 ^ 32

module _ {P : Type 0} where
  -- `Semaphore::new(cfg.fanout_concurrency)`, and nothing else happened yet.
  abbrev pub start : WorkerConfig → Worker P
  start cfg = record {
    phase = connecting;
    cancelled = false;
    permits = cfg.fanout_concurrency;
    in_flight = [];
    claimed = [];
    handled = [];
    abandoned = [];
  }

  -- `for job in batch`, and on to the next turn of the loop when it is through.
  abbrev pub next_job : List (Job P) → Phase P
  next_job [] = selecting
  next_job (j ∷ js) = spawning j js

  -- `if batch.is_empty() { … continue }`.
  abbrev pub take_batch : List (Job P) → Phase P
  take_batch [] = waiting
  take_batch (j ∷ js) = spawning j js

  -- `let batch = batch?`.
  abbrev pub receive : Result (List (Job P)) → Worker P → Worker P
  receive (ok jobs) w = record w { phase = take_batch jobs; claimed = jobs ++ w.claimed }
  receive (err e) w = record w { phase = finished (err e) }

  abbrev pub after_listen : Result (Unit {0}) → Phase P
  after_listen (ok u) = selecting
  after_listen (err e) = finished (err e)

  abbrev pub spawn_task : Job P → List (Job P) → ℕ → Worker P → Option (Worker P)
  spawn_task j js zero w = none
  spawn_task j js (suc n) w = some (record w {
    phase = next_job js;
    permits = n;
    in_flight = j ∷ w.in_flight;
    handled = j ∷ w.handled;
  })

  abbrev pub without : ℕ → List (Job P) → Option (List (Job P))
  without i [] = none
  without zero (j ∷ js) = some js
  without (suc i) (j ∷ js) = elim (without i js) [ none ↦ none | some rest ↦ some (j ∷ rest) ]

  abbrev pub end_task : Option (List (Job P)) → Worker P → Option (Worker P)
  end_task none w = none
  end_task (some rest) w = some (record w { in_flight = rest; permits = suc w.permits })

  abbrev pub go_on : Bool → Worker P → Option (Worker P)
  go_on true w = some w
  go_on false w = none

  -- `none`: the event cannot happen there. `biased` lets no other arm complete once the token fired.
  dispatch : WorkerConfig → Phase P → Event P → Worker P → Option (Worker P)
  dispatch cfg connecting (listens r) w = some (record w { phase = after_listen r })
  dispatch cfg selecting (break_claim lost) w =
      go_on w.cancelled (record w {
        phase = draining;
        claimed = lost ++ w.claimed;
        abandoned = lost ++ w.abandoned;
      })
  dispatch cfg selecting (claims r) w = if w.cancelled then none else some (receive r w)
  dispatch cfg waiting break_wait w = go_on w.cancelled (record w { phase = draining })
  dispatch cfg waiting notification w =
      if w.cancelled then none else some (record w { phase = selecting })
  dispatch cfg waiting poll_timeout w =
      if w.cancelled then none else some (record w { phase = selecting })
  dispatch cfg (spawning j js) spawn w = spawn_task j js w.permits w
  dispatch cfg draining drained w =
      go_on (leb (drain_total cfg) w.permits) (record w { phase = finished (ok tt) })
  dispatch cfg draining grace_over w = some (record w { phase = finished (ok tt) })
  dispatch cfg _ cancel w = some (record w { cancelled = true })
  dispatch cfg _ (ends i) w = end_task (without i w.in_flight) w
  dispatch cfg _ _ w = none

  unfoldable pub step : WorkerConfig → Event P → Worker P → Option (Worker P)
  unfolding dispatch
  step cfg e w = dispatch cfg w.phase e w

  -- The worker after a run of events, if each could happen.
  unfoldable pub run_worker : WorkerConfig → List (Event P) → Worker P → Option (Worker P)
  unfolding step
  run_worker cfg [] w = some w
  run_worker cfg (e ∷ es) w = elim (step cfg e w) [ none ↦ none | some w' ↦ run_worker cfg es w' ]
