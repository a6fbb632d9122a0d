-- ===== src/Worker/Drain.antt =====
-- After a cancellation: no new work, and an end.
use skip_locked.Prelude.{
  ℕ, ◌+◌, ◌*◌, ◌^◌, ◌<◌, ◌≡◌, ◌≢◌, List, [], some, arith, length, refl, Option-cases, inl, inr,
  Bool, true, count_if,
}
use skip_locked.Jobs.{Job}
use skip_locked.Worker.{
  WorkerConfig, Phase, connecting, selecting, waiting, spawning, draining, finished, Worker, Event,
  step, run_worker, without, cancel, ends, drained,
}
use skip_locked.Worker.Permits.{run-keeps, IsBalanced, length-without}
use skip_locked.Worker.Handled.{pending}

module _ {P : Type 0} (cfg : WorkerConfig) where
  abbrev Frozen : (Job P → Bool) → ℕ → Worker P → Type 0
  Frozen p n w = (w.cancelled ≡ true) × (count_if p w.handled + count_if p (pending w.phase) ≡ n)

  step-Frozen :
      (p : Job P → Bool) (n : ℕ) (e : Event P) (w w' : Worker P)
      → step cfg e w ≡ some w'
      → Frozen p n w
      → Frozen p n w'
  unfolding step
  step-Frozen p n _ w w' h f = ground arith

  -- Once the token has fired the handler gets no job but those of the batch under way.
  pub cancelled-no_new_work :
      (p : Job P → Bool) (es : List (Event P)) (w w' : Worker P)
      → w.cancelled ≡ true
      → run_worker cfg es w ≡ some w'
      → count_if p w'.handled + count_if p (pending w'.phase)
        ≡ count_if p w.handled + count_if p (pending w.phase)
  cancelled-no_new_work p es w w' c h =
      (run-keeps cfg (Frozen p (count_if p w.handled + count_if p (pending w.phase)))
        (step-Frozen p _) es w w' h (c, refl)).1

  abbrev rank : Phase P → ℕ
  rank connecting = 3
  rank selecting = 2
  rank waiting = 2
  rank (spawning j js) = 2
  rank draining = 1
  rank (finished r) = 0

  -- How much is left to do after a cancellation.
  abbrev pub remaining : Worker P → ℕ
  remaining w = rank w.phase + 2 * length (pending w.phase) + length w.in_flight

  -- After the token has fired each event but another cancellation is progress: the loop cannot spin.
  pub cancelled-progress :
      (e : Event P) (w w' : Worker P)
      → w.cancelled ≡ true
      → e ≢ cancel
      → step cfg e w ≡ some w'
      → remaining w' < remaining w
  unfolding step
  cancelled-progress cancel w w' c n h = absurd (n refl)
  cancelled-progress (ends i) w w' c n h = elim (Option-cases (without i w.in_flight)) [
    | inl q ↦ ground arith
    | inr (r, q) ↦ ground (arith, length-without i w.in_flight r q)
  ]
  cancelled-progress _ w w' c n h = ground arith

  -- A drain that completes in time leaves no task in flight.
  pub drained-quiet :
      (w w' : Worker P)
      → cfg.fanout_concurrency < 2 ^ 32
      → IsBalanced cfg w
      → step cfg drained w ≡ some w'
      → w'.in_flight ≡ []
  unfolding step
  drained-quiet w w' small b h = ground arith
