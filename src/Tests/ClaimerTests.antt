-- ===== src/Tests/ClaimerTests.antt =====
-- Two claims that interleave: both lock a job before either commits.
use skip_locked.Prelude.{ℕ, ◌+◌, ◌≤◌, ◌≡◌, refl, List, [], ◌∷◌, ◌++◌}
use skip_locked.Postgres.OrderBy.{insertion_sort}
use skip_locked.Jobs.{Job}
use skip_locked.Claim.Batch.{Below-Unique}
use skip_locked.Claimers.{Shared, Move, lock, commit_flight, moves, move}
use skip_locked.Claimers.Counts.{in_flight, with_id}
use skip_locked.Claimers.Disjoint.{returned_times, moves-disjoint}
use skip_locked.Tests.Data.{Payload, from_carrier, by_run_at, webhooks, table, table-Below}

abbrev both : List Move
both =
    lock "claimer-1" webhooks 1 100
    ∷ lock "claimer-2" webhooks 1 101
    ∷ commit_flight 1
    ∷ commit_flight 0
    ∷ []

abbrev after : Shared Payload
after = moves by_run_at both (record { db = table; flights = []; returned = [] })

abbrev batch1 : List (Job Payload)
batch1 = record { id = 2; kind = "webhook"; payload = from_carrier "B"; attempts = 1 } ∷ []

abbrev batch2 : List (Job Payload)
batch2 = record { id = 1; kind = "webhook"; payload = from_carrier "A"; attempts = 1 } ∷ []

after-returned : after.returned ≡ batch2 ++ batch1
unfolding move insertion_sort
after-returned = refl

table_unique : (i : ℕ) → with_id i table.jobs ≤ 1
table_unique i = Below-Unique 5 table.jobs table-Below i

moves-disjoint_example : returned_times 1 after + in_flight 1 after.flights ≤ 1
moves-disjoint_example = moves-disjoint by_run_at both table 1 (table_unique 1)
