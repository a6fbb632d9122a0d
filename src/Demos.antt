-- ===== src/Demos.antt =====
-- The programs under examples/ that drive the queue.
pub mod Producer
pub mod Burst
pub mod Fairness
pub mod Reaper
pub mod SkipLocked
pub mod Rerun
pub mod Example
pub mod Bouncer
use skip_locked.Prelude.{ℕ, List, [], ◌∷◌, String}
use skip_locked.Postgres.{ok}
use skip_locked.Postgres.Json.{Json}
use skip_locked.Jobs.{Db}
use skip_locked.Session.{Stmt}

-- `json!({"carrier_id": …, "event_id": …})`.
abbrev pub event_payload : {P : Type 0} → Json P → String → String → P
event_payload json carrier event = json.object (("carrier_id", carrier) ∷ ("event_id", event) ∷ [])

-- `TRUNCATE jobs, jobs_dead, processed_events RESTART IDENTITY`.
abbrev pub truncate : {P : Type 0} → Stmt P (Unit {0})
truncate now db =
    ok (tt, record db { jobs = []; jobs_dead = []; processed_events = []; next_id = 1 })
