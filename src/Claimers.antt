-- ===== src/Claimers.antt =====
-- Claims that run at the same time, as in examples/demo_skip_locked.rs: each statement of
-- src/claim.rs is a transaction, which locks its rows, updates them and commits. Between the lock
-- and the commit other transactions run; they see the old rows and skip the locked ones.
pub mod Counts
pub mod Disjoint
pub mod Steps
pub mod Reserved
pub mod Commit
pub mod Sound
pub mod Serial
pub mod Windows
pub mod Counted
pub mod Lives
use skip_locked.Prelude.{
  ℕ, zero, suc, List, [], ◌∷◌, ◌++◌, Bool, true, false, Option, some, none, String, any, contains,
  map, ◌||◌,
}
use skip_locked.Postgres.{Result, ok, err}
use skip_locked.Postgres.OrderBy.{OrderBy}
use skip_locked.Jobs.{Row, Db, Job}
use skip_locked.Claim.{lock_rows, update_claimed}

-- A claim that holds its locks: the worker, the kinds, the transaction's `now()`, the ids that it will
-- update, and those that it locked and will leave alone, as only a fair claim does.
pub record Flight : Type 0 where
  pub worker : String
  pub kinds : List String
  pub started : ℕ
  pub ids : List ℕ
  pub spared : List ℕ

-- The committed tables, the claims in flight, and the batches that committed claims returned.
pub record Shared (P : Type 0) : Type 0 where
  pub db : Db P
  pub flights : List Flight
  pub returned : List (Job P)

pub data Move : Type 0 where
  -- A worker's claim with this LIMIT, for these kinds, at this time takes its locks.
  lock : String → List String → ℕ → ℕ → Move
  -- The claim at this place in flight updates its rows and commits.
  commit_flight : ℕ → Move
  -- Its connection is lost before the commit.
  abort : ℕ → Move

abbrev pub is_held : Flight → ℕ → Bool
is_held f id = contains f.ids id || contains f.spared id

abbrev pub held_now : List Flight → ℕ → Bool
held_now fs id = any (λ f. is_held f id) fs

-- The flight at a place, and the others.
abbrev pub pick : ℕ → List Flight → Option (Flight × List Flight)
pick i [] = none
pick zero (f ∷ fs) = some (f, fs)
pick (suc i) (f ∷ fs) = elim (pick i fs) [ none ↦ none | some (g, rest) ↦ some (g, f ∷ rest) ]

module _ {P : Type 0} where
  -- A statement that raises is rolled back.
  abbrev pub land : Result (List (Job P) × Db P) → List Flight → Shared P → Shared P
  land (ok (jobs, db)) rest s = record { db = db; flights = rest; returned = jobs ++ s.returned }
  land (err e) rest s = record s { flights = rest }

  abbrev pub commit_pick : Option (Flight × List Flight) → Shared P → Shared P
  commit_pick none s = s
  commit_pick (some (f, rest)) s = land (update_claimed f.ids f.worker f.started s.db) rest s

  abbrev pub abort_pick : Option (Flight × List Flight) → Shared P → Shared P
  abort_pick none s = s
  abort_pick (some (f, rest)) s = record s { flights = rest }

  module _ (by_run_at : OrderBy (Row P) (λ r. r.run_at)) where
    unfoldable pub move : Move → Shared P → Shared P
    unfolding lock_rows update_claimed
    move (lock worker kinds k now) s = record s {
      flights =
          record {
            worker = worker;
            kinds = kinds;
            started = now;
            ids = map (λ r. r.id) (lock_rows by_run_at (held_now s.flights) kinds k now s.db);
            spared = [];
          }
          ∷ s.flights;
    }
    move (commit_flight i) s = commit_pick (pick i s.flights) s
    move (abort i) s = abort_pick (pick i s.flights) s

    abbrev pub moves : List Move → Shared P → Shared P
    moves [] s = s
    moves (m ∷ ms) s = moves ms (move m s)
