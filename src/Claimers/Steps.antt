-- ===== src/Claimers/Steps.antt =====
-- The whole crate at work: claims that interleave, and between their lock and their commit any
-- other statement of src/lib.rs, src/lease.rs and src/retry.rs, or a whole claim.
use skip_locked.Prelude.{
  ℕ, ◌≡◌, List, [], ◌∷◌, ◌++◌, Bool, false, String, contains, map, not, select,
}
use skip_locked.Prelude.Int.{ℤ}
use skip_locked.Postgres.Json.{Json}
use skip_locked.Postgres.{Result, ok, err, ◌>>=◌}
use skip_locked.Postgres.OrderBy.{OrderBy}
use skip_locked.Jobs.{Row, Db, Job}
use skip_locked.Claim.{claim_batch_sql, lock_rows, limit}
use skip_locked.Claim.Fair.{Candidate, fair_claim_sql, fair_ids, times_four}
use skip_locked.Queue.{Op, claim, claim_fairly, finish, retry, bury, apply}
use skip_locked.Claimers.{Shared, Move, held_now, move}

module _ {P : Type 0} where
  abbrev pub answer_of : Result (List (Job P) × Db P) → List (Job P)
  answer_of (ok (jobs, db)) = jobs
  answer_of (err e) = []

  -- The jobs that a statement returns: only claims return any.
  unfoldable pub answer : Op P → ℕ → Db P → List (Job P)
  answer (claim order held kinds n worker) now db =
      answer_of (claim_batch_sql order held kinds n worker now db)
  answer (claim_fairly json order window held kinds size share worker) now db =
      answer_of (fair_claim_sql json order window held kinds size share worker now db)
  answer _ now db = []

  -- When Postgres lets a statement through while rows are locked: one by key waits for its row, a
  -- claim skips the locked rows, and the others touch running rows or new ones only.
  abbrev pub Passes : (ℕ → Bool) → Op P → Type 0
  Passes locked (claim order held kinds n worker) = (i : ℕ) → held i ≡ locked i
  Passes locked (claim_fairly json order window held kinds size share worker) =
      (i : ℕ) → held i ≡ locked i
  Passes locked (finish id) = locked id ≡ false
  Passes locked (retry id error) = locked id ≡ false
  Passes locked (bury id error) = locked id ≡ false
  Passes locked _ = Unit

  abbrev pub served : ℕ → Op P → Shared P → Shared P
  served now op s = record s { db = apply op now s.db; returned = answer op now s.db ++ s.returned }

  -- A fair claim locks its whole window, and will update the rows within the cap.
  abbrev pub open_window :
      Json P
      → OrderBy (Row P) (λ r. r.run_at)
      → OrderBy Candidate (λ c. c.run_at)
      → List String
      → ℤ
      → String
      → ℕ
      → Shared P
      → Result ℕ
      → Shared P
  open_window json order window kinds tenant_cap worker now s (err e) = s
  open_window json order window kinds tenant_cap worker now s (ok k) =
      let held = held_now s.flights in
      let ids = fair_ids json order window held kinds k tenant_cap now s.db in
      record s {
        flights =
            record {
              worker = worker;
              kinds = kinds;
              started = now;
              ids = ids;
              spared =
                  select (λ i. not (contains ids i))
                    (map (λ r. r.id) (lock_rows order held kinds k now s.db));
            }
            ∷ s.flights;
      }

  -- A `$2 * 4` or a LIMIT that raises locks nothing.
  unfoldable pub lock_fairly :
      Json P
      → OrderBy (Row P) (λ r. r.run_at)
      → OrderBy Candidate (λ c. c.run_at)
      → List String
      → ℤ
      → ℤ
      → String
      → ℕ
      → Shared P
      → Shared P
  unfolding fair_ids lock_rows
  lock_fairly json order window kinds size tenant_cap worker now s =
      open_window json order window kinds tenant_cap worker now s (times_four size >>= limit)

  pub data Step (s : Shared P) : Shared P → Type 0 where
    claiming : (order : OrderBy (Row P) (λ r. r.run_at)) (m : Move) → Step s (move order m s)
    claiming_fairly :
        (json : Json P) (order : OrderBy (Row P) (λ r. r.run_at))
        (window : OrderBy Candidate (λ c. c.run_at)) (kinds : List String) (size tenant_cap : ℤ)
        (worker : String) (now : ℕ)
        → Step s (lock_fairly json order window kinds size tenant_cap worker now s)
    statement : (now : ℕ) (op : Op P) → Passes (held_now s.flights) op → Step s (served now op s)

  abbrev pub start : Db P → Shared P
  start db = record { db = db; flights = []; returned = [] }

  pub data Reach (db : Db P) : Shared P → Type 0 where
    here : Reach db (start db)
    next : {s t : Shared P} → Reach db s → Step s t → Reach db t
