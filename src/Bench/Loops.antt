-- ===== src/Bench/Loops.antt =====
-- examples/bench_throughput.rs: `seed`, the enqueue loop and the loop that claims and completes.
use skip_locked.Prelude.{
  ℕ, zero, suc, ◌+◌, ◌%◌, Bool, List, [], ◌∷◌, Option, some, none, String, length,
}
use skip_locked.Prelude.Int.{ℤ, pos, negsuc}
use skip_locked.Postgres.{ok}
use skip_locked.Postgres.OrderBy.{OrderBy}
use skip_locked.Postgres.Json.{Json}
use skip_locked.Jobs.{Row, Job}
use skip_locked.Session.{Stmt, M, pure, ◌>>=◌, ◌>>◌, execute}
use skip_locked.Enqueue.{new_row, enqueue_pool, mark_done}
use skip_locked.Claim.{claim_batch}
use skip_locked.Migration.Payloads.{decimal}

abbrev pub bench_kinds : List String
bench_kinds = "bench" ∷ []

-- How many numbers `0..n` and `generate_series(1, n)` have.
abbrev pub series_length : ℤ → ℕ
series_length (pos n) = n
series_length (negsuc n) = 0

module _ {P : Type 0} (json : Json P) where
  -- `jsonb_build_object('carrier_id', (i % 8)::text)`.
  abbrev pub bench_payload : ℕ → P
  bench_payload i = json.object (("carrier_id", decimal 20 (i % 8)) ∷ [])

  -- The rows of `generate_series(1, n)`, the last first.
  abbrev pub series_rows : ℕ → ℕ → List (Row P)
  series_rows zero now = []
  series_rows (suc i) now = new_row (suc i) "bench" (bench_payload (suc i)) now ∷ series_rows i now

  -- `TRUNCATE jobs RESTART IDENTITY`.
  abbrev pub truncate_jobs : Stmt P (Unit {0})
  truncate_jobs now db = ok (tt, record db { jobs = []; next_id = 1 })

  -- `INSERT INTO jobs … SELECT … FROM generate_series(1, $1)`, on a table that was truncated.
  abbrev pub insert_series : ℕ → Stmt P (Unit {0})
  insert_series n now db = ok (tt, record db { jobs = series_rows n now; next_id = suc n })

  unfoldable pub seed_bench : ℕ → M P (Unit {0})
  unfolding execute
  seed_bench n = execute truncate_jobs >> execute (insert_series n)

  unfoldable pub enqueue_sample : ℕ → M P (Unit {0})
  unfolding enqueue_pool
  enqueue_sample zero = pure tt
  enqueue_sample (suc n) =
      enqueue_pool "bench" (json.object (("carrier_id", "0") ∷ [])) >> enqueue_sample n

module _ {P : Type 0} where
  -- `for j in &rows { mark_done(&pool, j.id) }`.
  unfoldable pub mark_all : List (Job P) → M P (Unit {0})
  unfolding mark_done
  mark_all [] = pure tt
  mark_all (j ∷ js) = mark_done j.id >> mark_all js

module _ {P : Type 0} (by_run_at : OrderBy (Row P) (λ r. r.run_at)) (held : ℕ → Bool) where
  -- The third loop, on a fuel: the jobs that were done.
  unfoldable pub process_until_empty : ℕ → List String → ℤ → String → ℕ → M P (Option ℕ)
  unfolding claim_batch mark_all
  process_until_empty zero kinds size worker done = pure none
  process_until_empty (suc fuel) kinds size worker done =
      claim_batch by_run_at held kinds size worker >>= λ rows. elim rows [
        | [] ↦ pure (some done)
        | j ∷ js ↦
            mark_all (j ∷ js) >> process_until_empty fuel kinds size worker (done + suc (length js))
      ]
