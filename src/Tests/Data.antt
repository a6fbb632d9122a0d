-- ===== src/Tests/Data.antt =====
-- A small queue: three ready jobs of two carriers, of which one is not due, and one that runs.
use skip_locked.Prelude.{ℕ, ◌*◌, List, [], ◌∷◌, Bool, false, some, none, String, arith}
use skip_locked.Postgres.OrderBy.{OrderBy, stable_order}
use skip_locked.Jobs.{Row, Db, ready, running, second, empty_db}
use skip_locked.Jobs.Find.{Below}
use skip_locked.Session.{World, Wire}
use skip_locked.Claim.Fair.{Candidate}

abbrev pub Payload : Type 0
Payload = List (String × String)

abbrev pub from_carrier : String → Payload
from_carrier c = ("carrier_id", c) ∷ []

abbrev pub ready_job : ℕ → ℕ → Payload → Row Payload
ready_job id run_at payload = record {
  id = id;
  kind = "webhook";
  payload = payload;
  state = ready;
  run_at = run_at;
  locked_at = none;
  locked_by = none;
  attempts = 0;
  max_attempts = 20;
  last_error = none;
}

abbrev pub job_a : Row Payload
job_a = ready_job 1 30 (from_carrier "A")

abbrev pub job_b : Row Payload
job_b = ready_job 2 10 (from_carrier "B")

abbrev pub job_late : Row Payload
job_late = ready_job 3 900 []

abbrev pub job_run : ℕ → Row Payload
job_run attempts = record (ready_job 4 5 (from_carrier "A")) {
  state = running;
  locked_at = some (8 * second);
  locked_by = some "w1";
  attempts = attempts;
}

abbrev pub table : Db Payload
table = record empty_db { jobs = job_run 3 ∷ job_late ∷ job_b ∷ job_a ∷ []; next_id = 5 }

pub table-Below : Below 5 table.jobs
table-Below = omega arith

abbrev pub by_run_at : OrderBy (Row Payload) (λ r. r.run_at)
by_run_at = stable_order (λ r. r.run_at)

abbrev pub by_window : OrderBy Candidate (λ c. c.run_at)
by_window = stable_order (λ c. c.run_at)

abbrev pub nobody : ℕ → Bool
nobody i = false

abbrev pub webhooks : List String
webhooks = "webhook" ∷ []

abbrev pub world : List Wire → World Payload
world ws = record { db = table; clock = 100; wire = ws }
