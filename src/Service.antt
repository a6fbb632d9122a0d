-- ===== src/Service.antt =====
-- A whole worker process: the loop of src/worker.rs on the queue, with the handler of
-- examples/worker.rs, beside other sessions.
pub mod Owned
pub mod Rows
pub mod Others
pub mod Accounted
use skip_locked.Prelude.{
  String, str_eq, ℕ, zero, suc, ◌+◌, List, [], ◌∷◌, ◌++◌, Bool, true, false, Option, none, some,
  if◌then◌else◌, ◌≡◌, ◌==◌, ◌&&◌, count_if,
}
use skip_locked.Postgres.{Result, ok, err}
use skip_locked.Postgres.OrderBy.{OrderBy}
use skip_locked.Jobs.{Row, Db, Job, is_running, held_by}
use skip_locked.Session.{Wire, delivered, dropped, reply_lost, World}
use skip_locked.Claim.{claim_batch, claim_batch_sql}
use skip_locked.Queue.{Op, claim, claim_fairly, after, apply}
use skip_locked.Demos.Example.{handle}
use skip_locked.Worker.{
  WorkerConfig, Worker, Event, start, step, cancel, listens, break_claim, claims, break_wait,
  notification, poll_timeout, spawn, ends, drained, grace_over,
}
use skip_locked.Claimers.Steps.{answer_of}

-- The worker, the tables, and the jobs whose rows the worker leaves locked without knowing: those of a claim whose reply was
-- lost, and those whose completion never reached the server.
pub record Service (P : Type 0) : Type 0 where
  pub worker : Worker P
  pub db : Db P
  pub stranded : List (Job P)

-- What the process does next. A statement has its `now()` and the fate of its round trip; a claim also the rows that
-- other transactions hold.
pub data Act (P : Type 0) : Type 0 where
  -- An event of the loop that reaches no table.
  internal : Event P → Act P
  -- The claim's arm completes.
  claim_arm : (ℕ → Bool) → ℕ → Wire → Act P
  -- The token's arm drops the claim, which ran on the server or did not.
  drop_claim : (ℕ → Bool) → ℕ → Bool → Act P
  -- The handler of the task at this place completes its job.
  task_ends : ℕ → ℕ → Wire → Act P

module _ {P : Type 0} where
  abbrev pub is_internal : Event P → Bool
  is_internal (claims r) = false
  is_internal (break_claim lost) = false
  is_internal (ends i) = false
  is_internal _ = true

  abbrev pub nth : ℕ → List (Job P) → Option (Job P)
  nth i [] = none
  nth zero (j ∷ js) = some j
  nth (suc i) (j ∷ js) = nth i js

  -- Jobs that the server claimed and the worker never heard of.
  abbrev pub unheard : Wire → List (Job P) → List (Job P)
  unheard reply_lost jobs = jobs
  unheard _ jobs = []

  -- A job whose completion did not reach the server.
  abbrev pub undone : Wire → Job P → List (Job P)
  undone dropped j = j ∷ []
  undone _ j = []

  abbrev pub with_worker : Option (Worker P) → Db P → List (Job P) → Option (Service P)
  with_worker none db lost = none
  with_worker (some w) db lost = some (record { worker = w; db = db; stranded = lost })

  module _ (cfg : WorkerConfig) (order : OrderBy (Row P) (λ r. r.run_at)) where
    abbrev pub claim_result : (ℕ → Bool) → ℕ → Db P → Result (List (Job P) × Db P)
    claim_result held now db = claim_batch_sql order held cfg.kinds cfg.batch cfg.worker_id now db

    abbrev pub end_of : ℕ → ℕ → Wire → Option (Job P) → Service P → Option (Service P)
    end_of i now x none s = none
    end_of i now x (some j) s =
        let (r, w') = handle j (record { db = s.db; clock = now; wire = x ∷ [] }) in
        with_worker (step cfg (ends i) s.worker) w'.db (undone x j ++ s.stranded)

    unfoldable pub act : Act P → Service P → Option (Service P)
    unfolding claim_batch claim_batch_sql handle step
    act (internal e) s =
        if is_internal e then with_worker (step cfg e s.worker) s.db s.stranded else none
    act (claim_arm held now x) s =
        let (r, w') =
          claim_batch order held cfg.kinds cfg.batch cfg.worker_id
            (record { db = s.db; clock = now; wire = x ∷ [] }) in
        with_worker (step cfg (claims r) s.worker) w'.db
          (unheard x (answer_of (claim_result held now s.db)) ++ s.stranded)
    act (drop_claim held now ran) s =
        let r = claim_result held now s.db in
        with_worker (step cfg (break_claim (if ran then answer_of r else [])) s.worker)
          (if ran then after s.db r else s.db) s.stranded
    act (task_ends i now x) s = end_of i now x (nth i s.worker.in_flight) s

  -- How many running rows with this id are locked by the worker.
  abbrev pub mine : WorkerConfig → ℕ → Row P → Bool
  mine cfg i r = r.id == i && (is_running r.state && held_by r.locked_by cfg.worker_id)

  abbrev pub mine_in : WorkerConfig → ℕ → Db P → ℕ
  mine_in cfg i db = count_if (mine cfg i) db.jobs

  -- Whether a statement claims for this worker.
  abbrev pub claims_as : Op P → String → Bool
  claims_as (claim order held kinds n w) worker = str_eq w worker
  claims_as (claim_fairly json order window held kinds size share w) worker = str_eq w worker
  claims_as _ worker = false

  -- The process acts, or another session runs a statement, but no claim under the id of this worker.
  pub data Step (cfg : WorkerConfig) (order : OrderBy (Row P) (λ r. r.run_at)) (s t : Service P)
      : Type 0 where
    own : (a : Act P) → act cfg order a s ≡ some t → Step cfg order s t
    other :
        (now : ℕ) (op : Op P)
        → claims_as op cfg.worker_id ≡ false
        → t ≡ record s { db = apply op now s.db }
        → Step cfg order s t

  abbrev pub launch : WorkerConfig → Db P → Service P
  launch cfg db = record { worker = start cfg; db = db; stranded = [] }

  pub data Reach (cfg : WorkerConfig) (order : OrderBy (Row P) (λ r. r.run_at)) (db : Db P)
      : Service P → Type 0 where
    here : Reach cfg order db (launch cfg db)
    next : {s t : Service P} → Reach cfg order db s → Step cfg order s t → Reach cfg order db t
