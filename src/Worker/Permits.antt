-- ===== src/Worker/Permits.antt =====
-- Backpressure: a task in flight holds a permit, and there are `fanout_concurrency` of them.
use skip_locked.Prelude.{
  ℕ, zero, suc, ◌+◌, ◌≤◌, ◌≡◌, List, [], ◌∷◌, Option, some, none, arith, length, Option-cases, inl,
  inr, subst,
}
use skip_locked.Jobs.{Job}
use skip_locked.Worker.{WorkerConfig, Worker, Event, start, step, run_worker, without, ends}

module _ {P : Type 0} where
  pub length-without :
      (i : ℕ) (js rest : List (Job P)) → without i js ≡ some rest → length js ≡ suc (length rest)
  length-without i [] rest h = ground arith
  length-without zero (j ∷ js) rest h = ground arith
  length-without (suc i) (j ∷ js) rest h = elim (Option-cases (without i js)) [
    | inl e ↦ ground arith
    | inr (r, e) ↦ ground (arith, length-without i js r e)
  ]

  abbrev pub IsBalanced : WorkerConfig → Worker P → Type 0
  IsBalanced cfg w = w.permits + length w.in_flight ≡ cfg.fanout_concurrency

  pub step-IsBalanced :
      (cfg : WorkerConfig) (e : Event P) (w w' : Worker P)
      → step cfg e w ≡ some w'
      → IsBalanced cfg w
      → IsBalanced cfg w'
  unfolding step
  step-IsBalanced cfg (ends i) w w' h b = elim (Option-cases (without i w.in_flight)) [
    | inl e ↦ ground arith
    | inr (r, e) ↦ ground (arith, length-without i w.in_flight r e)
  ]
  step-IsBalanced cfg _ w w' h b = ground arith

  -- What every event keeps, every run keeps.
  pub run-keeps :
      (cfg : WorkerConfig) (K : Worker P → Type 0)
      → ((e : Event P) (w w' : Worker P) → step cfg e w ≡ some w' → K w → K w')
      → (es : List (Event P)) (w w' : Worker P) → run_worker cfg es w ≡ some w'
      → K w
      → K w'
  unfolding run_worker
  run-keeps cfg K keep [] w w' h k = let e : w ≡ w' = cc in subst K e k
  run-keeps cfg K keep (e ∷ es) w w' h k = elim (Option-cases (step cfg e w)) [
    | inl q ↦ let h' : ◌≡◌ {A = Option (Worker P)} none (some w') = rw (q, run_worker) at h in cc
    | inr (v, q) ↦ run-keeps cfg K keep es v w' (rw (q, run_worker) at h) (keep e w v q k)
  ]

  -- Whatever happens, no more tasks are in flight than `fanout_concurrency`, and every permit that
  -- no task holds is free.
  pub run_worker-backpressure :
      (cfg : WorkerConfig) (es : List (Event P)) (w : Worker P)
      → run_worker cfg es (start cfg) ≡ some w
      → (length w.in_flight ≤ cfg.fanout_concurrency)
        × (w.permits + length w.in_flight ≡ cfg.fanout_concurrency)
  run_worker-backpressure cfg es w h =
      omega (
        arith,
        run-keeps cfg (IsBalanced cfg) (step-IsBalanced cfg) es (start cfg) w h (omega arith),
      )
