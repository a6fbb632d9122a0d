-- ===== src/Bench.antt =====
-- examples/bench_throughput.rs and bench_claim_latency.rs: the loop that claims until a claim comes
-- back empty.
pub mod Claimed
pub mod Drained
pub mod Loops
pub mod Turn
pub mod Processed
pub mod Latency
pub mod OneByOne
pub mod Crew
pub mod Seeded
pub mod Throughput
use skip_locked.Prelude.{Bool, ℕ, zero, suc, ◌+◌, List, [], ◌∷◌, Option, some, none, String, length}
use skip_locked.Prelude.Int.{ℤ}
use skip_locked.Postgres.OrderBy.{OrderBy}
use skip_locked.Jobs.{Row, Job}
use skip_locked.Session.{M, pure, ◌>>=◌}
use skip_locked.Claim.{claim_batch}

module _ {P : Type 0} (by_run_at : OrderBy (Row P) (λ r. r.run_at)) (held : ℕ → Bool) where
  -- The loop's turns on a fuel, `none` when that runs out: the jobs claimed so far and in the end.
  unfoldable pub claim_until_empty : ℕ → List String → ℤ → String → ℕ → M P (Option ℕ)
  unfolding claim_batch
  claim_until_empty zero kinds size worker claimed = pure none
  claim_until_empty (suc fuel) kinds size worker claimed =
      claim_batch by_run_at held kinds size worker >>= λ rows. elim rows [
        | [] ↦ pure (some claimed)
        | j ∷ js ↦ claim_until_empty fuel kinds size worker (claimed + suc (length js))
      ]
