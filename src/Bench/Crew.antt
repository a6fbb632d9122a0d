-- ===== src/Bench/Crew.antt =====
-- examples/bench_throughput.rs, the second and the third part: several workers that claim until a claim comes back
-- empty, and in the third part complete the jobs of each batch. A turn is what the runtime and the server do next; a
-- turn that panics, by `unwrap`, ends the benchmark and is none.
pub mod Rows
pub mod Marks
pub mod Kept
pub mod Answered
pub mod Marked
pub mod Drains
pub mod Ends
use skip_locked.Prelude.{
  ℕ, zero, suc, ◌+◌, List, [], ◌∷◌, ◌++◌, Bool, true, false, Option, some, none, String, length,
}
use skip_locked.Postgres.{Result, ok, err}
use skip_locked.Postgres.OrderBy.{OrderBy}
use skip_locked.Jobs.{Row, Db, Job}
use skip_locked.Enqueue.{mark_done_sql}
use skip_locked.Claim.{update_claimed}
use skip_locked.Claimers.{Flight, Shared, lock, pick, move}

-- A batch that a worker completes job by job: its size, and the jobs that are left.
pub record Batch (P : Type 0) : Type 0 where
  pub worker : String
  pub size : ℕ
  pub left : List (Job P)

-- The tables with the claims under way, the workers that are about to claim, the batches of those that complete
-- their jobs, how many workers have left their loop, and the shared counter.
pub record Crew (P : Type 0) : Type 0 where
  pub shared : Shared P
  pub waiting : List String
  pub marking : List (Batch P)
  pub ended : ℕ
  pub counter : ℕ

pub data CrewTurn : Type 0 where
  -- The worker at this place begins a claim, these microseconds after the start.
  begins : ℕ → ℕ → CrewTurn
  -- The claim at this place in flight commits, and its worker goes on.
  answers : ℕ → CrewTurn
  -- The worker of the batch at this place completes the next job, or has none left.
  marks : ℕ → CrewTurn

abbrev pub take_at : {A : Type 0} → ℕ → List A → Option (A × List A)
take_at i [] = none
take_at zero (w ∷ ws) = some (w, ws)
take_at (suc i) (w ∷ ws) = elim (take_at i ws) [ none ↦ none | some (v, rest) ↦ some (v, w ∷ rest) ]

module _ {P : Type 0} where
  abbrev pub crew_of : List String → Db P → Crew P
  crew_of workers db = record {
    shared = record { db = db; flights = []; returned = [] };
    waiting = workers;
    marking = [];
    ended = 0;
    counter = 0;
  }

  -- `if rows.is_empty() { break }`, and else `claimed.fetch_add(rows.len())` and the next turn of the loop, or the
  -- loop over the batch, if the workers complete their jobs.
  abbrev pub after_rows : Bool → String → List (Job P) → Shared P → Crew P → Crew P
  after_rows completing worker [] shared s = record s { shared = shared; ended = suc s.ended }
  after_rows false worker (j ∷ js) shared s = record s {
    shared = shared;
    waiting = worker ∷ s.waiting;
    counter = s.counter + suc (length js);
  }
  after_rows true worker (j ∷ js) shared s = record s {
    shared = shared;
    marking = record { worker = worker; size = suc (length js); left = j ∷ js } ∷ s.marking;
  }

  abbrev pub after_claim :
      Bool → Result (List (Job P) × Db P) → Flight → List Flight → Crew P → Option (Crew P)
  after_claim completing (err e) f rest s = none
  after_claim completing (ok (jobs, db)) f rest s = some (
      after_rows completing f.worker jobs
        (record { db = db; flights = rest; returned = jobs ++ s.shared.returned }) s)

  abbrev pub answer_at : Bool → Option (Flight × List Flight) → Crew P → Option (Crew P)
  answer_at completing none s = none
  answer_at completing (some (f, rest)) s =
      after_claim completing (update_claimed f.ids f.worker f.started s.shared.db) f rest s

  abbrev pub after_mark :
      Result (ℕ × Db P) → Batch P → List (Job P) → List (Batch P) → Crew P → Option (Crew P)
  after_mark (err e) b js rest s = none
  after_mark (ok (u, db)) b js rest s =
      some
        (record s { shared = record s.shared { db = db }; marking = record b { left = js } ∷ rest })

  -- `for j in &rows { mark_done }`, and then `done.fetch_add(rows.len())`.
  abbrev pub mark_next : ℕ → List (Job P) → Batch P → List (Batch P) → Crew P → Option (Crew P)
  mark_next now [] b rest s =
      some
        (record s { waiting = b.worker ∷ s.waiting; marking = rest; counter = s.counter + b.size })
  mark_next now (j ∷ js) b rest s = after_mark (mark_done_sql j.id now s.shared.db) b js rest s

  abbrev pub mark_at : ℕ → Option (Batch P × List (Batch P)) → Crew P → Option (Crew P)
  mark_at now none s = none
  mark_at now (some (b, rest)) s = mark_next now b.left b rest s

  module _ (by_run_at : OrderBy (Row P) (λ r. r.run_at)) (kinds : List String) (size start : ℕ)
      (completing : Bool) where
    abbrev pub begin_at : Option (String × List String) → ℕ → Crew P → Option (Crew P)
    begin_at none d s = none
    begin_at (some (w, ws)) d s = some (record s {
      shared = move by_run_at (lock w kinds size (start + d)) s.shared;
      waiting = ws;
    })

    unfoldable pub crew_turn : CrewTurn → Crew P → Option (Crew P)
    unfolding move update_claimed mark_done_sql
    crew_turn (begins i d) s = begin_at (take_at i s.waiting) d s
    crew_turn (answers i) s = answer_at completing (pick i s.shared.flights) s
    crew_turn (marks i) s = mark_at start (take_at i s.marking) s

    unfoldable pub crew_turns : List CrewTurn → Crew P → Option (Crew P)
    unfolding crew_turn
    crew_turns [] s = some s
    crew_turns (t ∷ ts) s = elim (crew_turn t s) [ none ↦ none | some s' ↦ crew_turns ts s' ]
