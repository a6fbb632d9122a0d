-- ===== src/Bench/Latency.antt =====
-- examples/bench_claim_latency.rs: the loop that claims one job at a time, and `pct`, which is also
-- that of bench_migration.rs; `env_usize`, which the benchmarks share.
pub mod Recorded
use mathlib.Core.List.Memᴰ.{head, tail}
use skip_locked.Prelude.{
  ℕ, zero, suc, ◌-◌, ◌<◌, ◌≢◌, refl, List, [], ◌∷◌, Bool, Option, none, some, String, leb,
  if◌then◌else◌, length, arith, Memᴰ,
}
use skip_locked.Prelude.Int.{ℤ, pos, negsuc, as_i64}
use skip_locked.Postgres.Json.{Json}
use skip_locked.Bench.Loops.{bench_kinds, series_length, seed_bench}
use skip_locked.Postgres.OrderBy.{OrderBy}
use skip_locked.Jobs.{Row}
use skip_locked.Session.{M, pure, ◌>>=◌, ◌>>◌}
use skip_locked.Enqueue.{mark_done}
use skip_locked.Claim.{claim_batch}

-- `var(key).ok().and_then(|v| v.parse().ok()).unwrap_or(default)`, of the variable and `parse`.
abbrev pub env_usize : (String → Option ℕ) → Option String → ℕ → ℕ
env_usize parse none default = default
env_usize parse (some v) default = elim (parse v) [ none ↦ default | some n ↦ n ]

module _ {F : Type 0} where
  -- `sorted[i]`, or the given value out of range.
  abbrev pub at : F → List F → ℕ → F
  at d [] i = d
  at d (x ∷ xs) zero = x
  at d (x ∷ xs) (suc i) = at d xs i

  -- `F` is the type `f64`, with its 0.0 and `(p / 100.0 * n as f64) as usize`.
  unfoldable pub pct : F → (F → ℕ → ℕ) → List F → F → F
  pct zero_f scaled [] p = zero_f
  pct zero_f scaled (x ∷ xs) p =
      let n = length (x ∷ xs) in
      let i = scaled p n in at zero_f (x ∷ xs) (if leb n i then n - 1 else i)

  at-mem : (d : F) (xs : List F) (i : ℕ) → i < length xs → Memᴰ (at d xs i) xs
  at-mem d [] i h = absurd (omega arith)
  at-mem d (x ∷ xs) zero h = head refl
  at-mem d (x ∷ xs) (suc i) h = tail (at-mem d xs i (omega arith))

  -- Whatever the floating-point product is cast to, a percentile of a list that is not empty is one of its entries:
  -- the index is in range.
  pub pct-mem :
      (zero_f : F) (scaled : F → ℕ → ℕ) (sorted : List F) (p : F)
      → sorted ≢ []
      → Memᴰ (pct zero_f scaled sorted p) sorted
  unfolding pct
  pct-mem zero_f scaled [] p h = absurd (h refl)
  pct-mem zero_f scaled (x ∷ xs) p h = at-mem zero_f (x ∷ xs) _ (ground arith)

module _ {P : Type 0} (by_run_at : OrderBy (Row P) (λ r. r.run_at)) (held : ℕ → Bool) where
  -- The loop, on a fuel: how many latencies it records.
  unfoldable pub latency_loop : ℕ → List String → String → ℕ → M P (Option ℕ)
  unfolding claim_batch mark_done
  latency_loop zero kinds worker recorded = pure none
  latency_loop (suc fuel) kinds worker recorded =
      claim_batch by_run_at held kinds (pos 1) worker >>= λ rows. elim rows [
        | [] ↦ pure (some recorded)
        | j ∷ js ↦ mark_done j.id >> latency_loop fuel kinds worker (suc recorded)
      ]

  -- `main` on a seeded table. A negative number of jobs has no `Vec` of that capacity, which panics.
  abbrev measure : ℕ → ℤ → M P (Option ℕ)
  measure fuel (pos n) = latency_loop fuel bench_kinds "lat" 0
  measure fuel (negsuc n) = pure none

  unfoldable pub latency : Json P → ℕ → ℤ → M P (Option ℕ)
  unfolding latency_loop seed_bench
  latency json fuel jobs = seed_bench json (series_length jobs) >> measure fuel jobs

-- Of the environment and `parse` of `usize`.
abbrev pub latency_jobs : (String → Option ℕ) → (String → Option String) → ℤ
latency_jobs parse var = as_i64 (env_usize parse (var "BENCH_JOBS") 20000)
