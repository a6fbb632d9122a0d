-- ===== src/Queue/Lifecycle.antt =====
-- The life of one job, whatever the table around it: an abstract state machine that every statement keeps to.
use skip_locked.Prelude.{
  ℕ, suc, ◌≡◌, List, Bool, false, Option, none, some, String, count_if, ◌==◌, leb, if◌then◌else◌,
}
use skip_locked.Prelude.Int.{ℤ}
use skip_locked.Postgres.OrderBy.{OrderBy}
use skip_locked.Postgres.Json.{Json}
use skip_locked.Jobs.{JobState, Row, DeadRow, Db, ready, running, done, dead}
use skip_locked.Jobs.Find.{find}
use skip_locked.Claim.Fair.{Candidate}
use skip_locked.Lease.{Duration}
use skip_locked.Queue.{Op, insert, insert_at, claim, claim_fairly, finish, reaps, retry, bury}

-- Where a job stands, with its attempts so far: not there yet, ready, running for a worker, done, or in jobs_dead.
pub data Stage : Type 0 where
  missing : Stage
  waiting : ℕ → Stage
  working : Option String → ℕ → Stage
  finished : ℕ → Stage
  buried : Stage

-- The attempts of a job that is in `jobs`.
abbrev pub attempts_of : Stage → Option ℕ
attempts_of missing = none
attempts_of (waiting n) = some n
attempts_of (working w n) = some n
attempts_of (finished n) = some n
attempts_of buried = none

abbrev pub stage_in : JobState → Option String → ℕ → Stage
stage_in ready w n = waiting n
stage_in running w n = working w n
stage_in done w n = finished n
stage_in dead w n = buried

module _ {P : Type 0} where
  abbrev pub stage_row : Row P → Stage
  stage_row r = stage_in r.state r.locked_by r.attempts

  abbrev pub stage_gone : ℕ → List (DeadRow P) → Stage
  stage_gone i ds = if leb 1 (count_if (λ (d : DeadRow P). d.id == i) ds) then buried else missing

  abbrev pub stage_found : ℕ → Option (Row P) → List (DeadRow P) → Stage
  stage_found i none ds = stage_gone i ds
  stage_found i (some r) ds = stage_row r

  -- The stage of the job with this id.
  abbrev pub stage_of : ℕ → Db P → Stage
  stage_of i db = stage_found i (find i db.jobs) db.jobs_dead

  -- What a statement may do to the job with this id.
  pub data Goes (i : ℕ) : Op P → Stage → Stage → Type 0 where
    stays : (op : Op P) (s : Stage) → Goes i op s s
    enqueued : (kind : String) (payload : P) → Goes i (insert kind payload) missing (waiting 0)
    enqueued_at :
        (kind : String) (payload : P) (run_at : ℕ)
        → Goes i (insert_at kind payload run_at) missing (waiting 0)
    claimed :
        (order : OrderBy (Row P) (λ r. r.run_at)) (held : ℕ → Bool) (kinds : List String) (n : ℤ)
        (worker : String) (k : ℕ)
        → held i ≡ false
        → Goes i (claim order held kinds n worker) (waiting k) (working (some worker) (suc k))
    claimed_fairly :
        (json : Json P) (order : OrderBy (Row P) (λ r. r.run_at))
        (window : OrderBy Candidate (λ c. c.run_at)) (held : ℕ → Bool) (kinds : List String)
        (size share : ℤ) (worker : String) (k : ℕ)
        → held i ≡ false
        → Goes i
            (claim_fairly json order window held kinds size share worker)
            (waiting k)
            (working (some worker) (suc k))
    reaped :
        (lease : Duration) (w : Option String) (k : ℕ)
        → Goes i (reaps lease) (working w k) (waiting k)
    retried :
        (error : String) (s : Stage) (k : ℕ)
        → attempts_of s ≡ some k
        → Goes i (retry i error) s (waiting k)
    completed : (s : Stage) (k : ℕ) → attempts_of s ≡ some k → Goes i (finish i) s (finished k)
    given_up :
        (error : String) (s : Stage) (k : ℕ)
        → attempts_of s ≡ some k
        → Goes i (bury i error) s buried
