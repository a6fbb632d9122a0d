-- ===== src/Bench/Latency/Recorded.antt =====
-- How many latencies the benchmark records, and what it leaves.
use skip_locked.Prelude.{ℕ, suc, ◌+◌, ◌<◌, ◌≡◌, refl, ◌∙◌, some, false, arith, map}
use skip_locked.Prelude.Int.{pos}
use skip_locked.Postgres.{ok}
use skip_locked.Postgres.OrderBy.{OrderBy}
use skip_locked.Postgres.Json.{Json}
use skip_locked.Jobs.{Row, Db}
use skip_locked.Bench.Loops.{bench_kinds, series_rows}
use skip_locked.Bench.Turn.{quiet, processed_row}
use skip_locked.Bench.Processed.{process_until_empty-total}
use skip_locked.Bench.OneByOne.{latency_loop-process_until_empty}
use skip_locked.Bench.Latency.{latency}
use skip_locked.Bench.Seeded.{seeded, seeded-Inv, series-free, series-full, series-processed}

module _ {P : Type 0} (json : Json P) (by_run_at : OrderBy (Row P) (λ r. r.run_at)) (now : ℕ) where
  -- With a fuel above the number of jobs, no failed round trip and no rows that other transactions hold: the benchmark
  -- ends and records one latency for each job, and the table then has each job claimed once and done.
  pub latency-total :
      (fuel n : ℕ) (db : Db P)
      → n < fuel
      → latency by_run_at (λ i. false) json fuel (pos n) (quiet db now) ≡ (
        ok (some n),
        quiet
            (record db {
              jobs = map (processed_row now "lat") (series_rows json n now);
              next_id = suc n;
            })
            now,
      )
  unfolding latency
  latency-total fuel n db more =
      let plain : 0 + n ≡ n = omega arith in
      let fresh = (seeded-Inv json now n db).fresh in
      latency_loop-process_until_empty by_run_at (λ i. false) bench_kinds "lat" (suc n) fuel 0
        (quiet (seeded json now n db) now) fresh
      ∙ process_until_empty-total by_run_at (λ i. false) bench_kinds 1 now (suc n) "lat" fuel 0
          (seeded json now n db) (omega arith) fresh (series-full json now n)
          (omega (arith, more, series-free json now n))
      ∙ rw (series-free json now n, series-processed json now (processed_row now "lat") n, plain)
          refl
