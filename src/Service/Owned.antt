-- ===== src/Service/Owned.antt =====
-- What each event of the loop does to the jobs that the worker has.
use skip_locked.Prelude.{
  ℕ, zero, suc, ◌+◌, ◌≡◌, List, [], ◌∷◌, Bool, true, some, arith, count_if, count_if-append,
  Option-cases, inl, inr, if◌then◌else◌,
}
use skip_locked.Postgres.{Error, ok, err}
use skip_locked.Jobs.{Job}
use skip_locked.Worker.{WorkerConfig, Worker, Event, step, break_claim, claims, ends, without}
use skip_locked.Worker.Handled.{pending}
use skip_locked.Service.{is_internal, nth}

module _ {P : Type 0} (p : Job P → Bool) where
  -- The jobs that wait in the batch, that a task handles, or that a dropped claim had.
  abbrev pub owned : Worker P → ℕ
  owned w = count_if p (pending w.phase) + count_if p w.in_flight + count_if p w.abandoned

  without-nth :
      (i : ℕ) (js rest : List (Job P)) (j : Job P)
      → nth i js ≡ some j
      → without i js ≡ some rest
      → count_if p js ≡ (if p j then 1 else 0) + count_if p rest
  without-nth i [] rest j h g = ground arith
  without-nth zero (k ∷ js) rest j h g = ground arith
  without-nth (suc i) (k ∷ js) rest j h g = elim (Option-cases (without i js)) [
    | inl e ↦ ground arith
    | inr (r, e) ↦ ground (arith, without-nth i js r j h e)
  ]

  module _ (cfg : WorkerConfig) (w w' : Worker P) where
    pub internal-owned :
        (e : Event P) → is_internal e ≡ true → step cfg e w ≡ some w' → owned w' ≡ owned w
    unfolding step
    internal-owned (claims r) h g = ground arith
    internal-owned (break_claim lost) h g = ground arith
    internal-owned (ends i) h g = ground arith
    internal-owned _ h g = ground arith

    pub claims-owned :
        (jobs : List (Job P))
        → step cfg (claims (ok jobs)) w ≡ some w'
        → owned w' ≡ owned w + count_if p jobs
    unfolding step
    claims-owned [] g = ground arith
    claims-owned (j ∷ js) g = ground arith

    pub failed-owned : (x : Error) → step cfg (claims (err x)) w ≡ some w' → owned w' ≡ owned w
    unfolding step
    failed-owned x g = ground arith

    pub break_claim-owned :
        (lost : List (Job P))
        → step cfg (break_claim lost) w ≡ some w'
        → owned w' ≡ owned w + count_if p lost
    unfolding step
    break_claim-owned lost g = ground (arith, count_if-append p lost w.abandoned)

    pub ends-owned :
        (i : ℕ) (j : Job P)
        → nth i w.in_flight ≡ some j
        → step cfg (ends i) w ≡ some w'
        → owned w ≡ (if p j then 1 else 0) + owned w'
    unfolding step
    ends-owned i j h g = elim (Option-cases (without i w.in_flight)) [
      | inl e ↦ ground arith
      | inr (r, e) ↦ ground (arith, without-nth i w.in_flight r j h e)
    ]
