-- ===== src/Bench/Seeded.antt =====
-- The table that `seed` of the benchmarks leaves: a backlog of new jobs.
use skip_locked.Prelude.{ℕ, zero, suc, ◌≡◌, refl, All, arith, count_if, false, map}
use skip_locked.Postgres.Json.{Json}
use skip_locked.Jobs.{Row, Db}
use skip_locked.Jobs.Find.{Below}
use skip_locked.Jobs.Update.{update_where}
use skip_locked.Claim.{free}
use skip_locked.Queue.Lawful.{IsLawful, Inv, new_row-IsLawful}
use skip_locked.Bench.Claimed.{full}
use skip_locked.Bench.Loops.{bench_kinds, bench_payload, series_rows}
use skip_locked.Bench.Crew.Rows.{is_open, is_bad}
use skip_locked.Bench.Crew.Marks.{is_finished}

module _ {P : Type 0} (json : Json P) (now : ℕ) where
  abbrev pub seeded : ℕ → Db P → Db P
  seeded n db = record db { jobs = series_rows json n now; next_id = suc n }

  series-Below : (n : ℕ) → Below (suc n) (series_rows json n now)
  series-Below zero = tt
  series-Below (suc n) = (omega arith, series-Below n)

  series-IsLawful : (n : ℕ) → All IsLawful (series_rows json n now)
  series-IsLawful zero = tt
  series-IsLawful (suc n) =
      (new_row-IsLawful (suc n) "bench" (bench_payload json (suc n)) now, series-IsLawful n)

  pub seeded-Inv : (n : ℕ) (db : Db P) → Inv (seeded n db)
  seeded-Inv n db = record { fresh = series-Below n; lawful = series-IsLawful n }

  -- All of the backlog is open, and none is bad or done.
  pub series-open : (n : ℕ) → count_if (is_open bench_kinds) (series_rows json n now) ≡ n
  series-open zero = refl
  series-open (suc n) = ground (arith, series-open n)

  pub series-bad : (n : ℕ) → count_if (is_bad bench_kinds now) (series_rows json n now) ≡ 0
  series-bad zero = refl
  series-bad (suc n) = ground (arith, series-bad n)

  pub series-finished : (n : ℕ) → count_if (is_finished bench_kinds) (series_rows json n now) ≡ 0
  series-finished zero = refl
  series-finished (suc n) = ground (arith, series-finished n)

  -- If no other transaction holds rows, all of it is free, with room for an attempt.
  pub series-free :
      (n : ℕ) → count_if (free (λ i. false) now bench_kinds) (series_rows json n now) ≡ n
  series-free zero = refl
  series-free (suc n) = ground (arith, series-free n)

  pub series-full :
      (n : ℕ) → count_if (full (λ i. false) now bench_kinds) (series_rows json n now) ≡ 0
  series-full zero = refl
  series-full (suc n) = ground (arith, series-full n)

  -- The rows are new until something has been done with each.
  pub series-processed :
      (f : Row P → Row P) (n : ℕ)
      → update_where (free (λ i. false) now bench_kinds) f (series_rows json n now)
        ≡ map f (series_rows json n now)
  series-processed f zero = refl
  series-processed f (suc n) = ground (arith, series-processed f n)
