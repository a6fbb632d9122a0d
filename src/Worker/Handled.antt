-- ===== src/Worker/Handled.antt =====
-- What becomes of the jobs that the database gave the worker.
use skip_locked.Prelude.{
  ◌+◌, ◌≡◌, List, [], ◌∷◌, some, arith, refl, Bool, count_if, count_if-append,
}
use skip_locked.Postgres.{ok, err}
use skip_locked.Jobs.{Job}
use skip_locked.Worker.{
  WorkerConfig, Phase, spawning, Worker, Event, start, step, run_worker, break_claim, claims, ends,
}
use skip_locked.Worker.Permits.{run-keeps}

module _ {P : Type 0} where
  -- The jobs of the batch that are not spawned yet.
  abbrev pub pending : Phase P → List (Job P)
  pending (spawning j js) = j ∷ js
  pending _ = []

  -- By any test, the jobs claimed are those handled, pending and abandoned.
  abbrev pub Accounts : (Job P → Bool) → Worker P → Type 0
  Accounts p w =
      count_if p w.claimed
      ≡ count_if p w.handled + count_if p (pending w.phase) + count_if p w.abandoned

  step-Accounts :
      (cfg : WorkerConfig) (p : Job P → Bool) (e : Event P) (w w' : Worker P)
      → step cfg e w ≡ some w'
      → Accounts p w
      → Accounts p w'
  unfolding step
  step-Accounts cfg p (ends i) w w' h a = ground arith
  step-Accounts cfg p (break_claim lost) w w' h a =
      ground (arith, count_if-append p lost w.claimed, count_if-append p lost w.abandoned)
  step-Accounts cfg p (claims (ok [])) w w' h a = ground arith
  step-Accounts cfg p (claims (ok (j ∷ js))) w w' h a =
      ground (arith, count_if-append p (j ∷ js) w.claimed)
  step-Accounts cfg p (claims (err x)) w w' h a = ground arith
  step-Accounts cfg p _ w w' h a = ground arith

  -- Each job that the database gave the worker was handed to the handler once, waits for its turn,
  -- or was in the answer of a claim that a cancellation dropped. Nothing else reached the handler.
  pub run_worker-Accounts :
      (cfg : WorkerConfig) (p : Job P → Bool) (es : List (Event P)) (w : Worker P)
      → run_worker cfg es (start cfg) ≡ some w
      → Accounts p w
  run_worker-Accounts cfg p es w h =
      run-keeps cfg (Accounts p) (step-Accounts cfg p) es (start cfg) w h refl
