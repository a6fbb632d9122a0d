-- ===== src/Bench/Throughput.antt =====
-- examples/bench_throughput.rs: `main`, a seeded table and a crew of workers for each of its parts.
pub mod Totals
use Prim.Native.String.{◌++◌ as append}
use skip_locked.Prelude.{
  ℕ, zero, suc, List, [], ◌∷◌, Bool, true, false, Option, none, some, String, ◌==◌, if◌then◌else◌,
}
use skip_locked.Prelude.Int.{ℤ, pos, negsuc, as_i64}
use skip_locked.Postgres.{Result, ok, err}
use skip_locked.Postgres.OrderBy.{OrderBy}
use skip_locked.Postgres.Json.{Json}
use skip_locked.Jobs.{Row}
use skip_locked.Session.{World, M, pure, ◌>>=◌, ◌>>◌, execute}
use skip_locked.Claim.{limit}
use skip_locked.Migration.Payloads.{decimal}
use skip_locked.Bench.Latency.{env_usize}
use skip_locked.Bench.Loops.{bench_kinds, series_length, truncate_jobs, seed_bench, enqueue_sample}
use skip_locked.Bench.Crew.{Crew, CrewTurn, crew_of, crew_turns}

pub record Config : Type 0 where
  pub jobs : ℤ
  pub workers : ℕ
  pub size : ℤ
  pub sample : ℤ

-- Of the environment and `parse` of `usize`.
abbrev pub config_of : (String → Option ℕ) → (String → Option String) → Config
config_of parse var = record {
  jobs = as_i64 (env_usize parse (var "BENCH_JOBS") 50000);
  workers = env_usize parse (var "BENCH_WORKERS") 8;
  size = as_i64 (env_usize parse (var "BENCH_BATCH") 100);
  sample = as_i64 (env_usize parse (var "BENCH_ENQUEUE") 5000);
}

-- `format!("claim-{w}")` for the next workers from `w` on.
abbrev pub worker_names : String → ℕ → ℕ → List String
worker_names prefix w zero = []
worker_names prefix w (suc n) = append prefix (decimal 20 w) ∷ worker_names prefix (suc w) n

-- What the two parts print, if both_totals have ended.
abbrev pub both_totals : Option ℕ → Option ℕ → Option (ℕ × ℕ)
both_totals none n = none
both_totals (some m) none = none
both_totals (some m) (some n) = some (m, n)

module _ {P : Type 0} where
  -- `for h in handles { h.await? }`: the counter, once each worker has left its loop.
  abbrev pub joined : ℕ → Option (Crew P) → M P (Option ℕ)
  joined workers none w = (ok none, w)
  joined workers (some s) w =
      (ok (if s.ended == workers then some s.counter else none), record w { db = s.shared.db })

  module _ (json : Json P) (by_run_at : OrderBy (Row P) (λ r. r.run_at)) where
    -- A negative LIMIT makes a worker's first claim panic.
    abbrev pub crew_run : Bool → Result ℕ → ℕ → List CrewTurn → Crew P → Option (Crew P)
    crew_run completing (ok size) now turns s =
        crew_turns by_run_at bench_kinds size now completing turns s
    crew_run completing (err e) now [] s = some s
    crew_run completing (err e) now (t ∷ ts) s = none

    -- The tasks of one part. A list of turns that they cannot take, or that leaves one in its loop, is none.
    unfoldable pub run_workers : Bool → String → Config → List CrewTurn → M P (Option ℕ)
    unfolding crew_turns
    run_workers completing prefix c turns w =
        joined c.workers
          (crew_run completing (limit c.size) w.clock turns
            (crew_of (worker_names prefix 0 c.workers) w.db))
          w

    unfoldable pub throughput : Config → List CrewTurn → List CrewTurn → M P (Option (ℕ × ℕ))
    unfolding execute enqueue_sample seed_bench run_workers
    throughput c claiming processing = do
      execute (truncate_jobs json)
      enqueue_sample json (series_length c.sample)
      seed_bench json (series_length c.jobs)
      claimed ← run_workers false "claim-" c claiming
      seed_bench json (series_length c.jobs)
      done ← run_workers true "proc-" c processing
      pure (both_totals claimed done)
