-- ===== src/Worker/Live.antt =====
-- A worker that was told to stop always has something that it can do, until it returns.
use skip_locked.Prelude.{
  ℕ, zero, suc, ◌+◌, ◌≤◌, ◌≡◌, ◌≢◌, List, [], ◌∷◌, true, none, arith, length, refl,
}
use skip_locked.Postgres.{Result, ok}
use skip_locked.Jobs.{Job}
use skip_locked.Worker.{
  WorkerConfig, Phase, connecting, selecting, waiting, spawning, draining, finished, Worker, Event,
  step, cancel, listens, break_claim, break_wait, spawn, ends, grace_over,
}
use skip_locked.Worker.Permits.{IsBalanced}

module _ {P : Type 0} (cfg : WorkerConfig) where
  abbrev pub CanMove : Worker P → Type 0
  CanMove w = (e : Event P) × (e ≢ cancel) × (step cfg e w ≢ none)

  -- In the loop over a batch: a free permit takes the next job, and with none free a task can end.
  spawning-CanMove :
      (j : Job P) (js : List (Job P)) (w : Worker P) (n : ℕ) (fl : List (Job P))
      → w.phase ≡ spawning j js
      → w.permits ≡ n
      → w.in_flight ≡ fl
      → 1 ≤ n + length fl
      → CanMove w
  unfolding step
  spawning-CanMove j js w (suc n) fl p q f h = (spawn, λ e. cc, λ h'. ground arith)
  spawning-CanMove j js w zero [] p q f h = absurd (omega arith)
  spawning-CanMove j js w zero (k ∷ fl) p q f h = (ends 0, λ e. cc, λ h'. ground arith)

  by_phase :
      (ph : Phase P) (w : Worker P)
      → w.phase ≡ ph
      → w.cancelled ≡ true
      → 1 ≤ cfg.fanout_concurrency
      → IsBalanced cfg w
      → ((r : Result (Unit {0})) → ph ≢ finished r)
      → CanMove w
  unfolding step
  by_phase connecting w p c f b n = (listens (ok tt), λ e. cc, λ h'. ground arith)
  by_phase selecting w p c f b n = (break_claim [], λ e. cc, λ h'. ground arith)
  by_phase waiting w p c f b n = (break_wait, λ e. cc, λ h'. ground arith)
  by_phase (spawning j js) w p c f b n =
      spawning-CanMove j js w w.permits w.in_flight p refl refl (omega (arith, f, b))
  by_phase draining w p c f b n = (grace_over, λ e. cc, λ h'. ground arith)
  by_phase (finished r) w p c f b n = absurd (n r refl)

  -- With at least one permit in all, a cancelled worker that did not return yet is never stuck: some event other than
  -- another cancellation can happen.
  pub cancelled-CanMove :
      (w : Worker P)
      → w.cancelled ≡ true
      → 1 ≤ cfg.fanout_concurrency
      → IsBalanced cfg w
      → ((r : Result (Unit {0})) → w.phase ≢ finished r)
      → CanMove w
  cancelled-CanMove w c f b n = by_phase w.phase w refl c f b n
