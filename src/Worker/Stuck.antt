-- ===== src/Worker/Stuck.antt =====
-- A worker without permits.
use skip_locked.Prelude.{◌≡◌, List, [], some, arith, refl}
use skip_locked.Jobs.{Job}
use skip_locked.Worker.{WorkerConfig, Worker, Event, spawning, step, run_worker}
use skip_locked.Worker.Permits.{run-keeps}

module _ {P : Type 0} where
  -- With no permit and no task that could release one, a worker with a batch stays where it
  -- is, cancelled or not: with `fanout_concurrency: 0` it claims one batch, handles none of it and never returns.
  pub starved-stuck :
      (cfg : WorkerConfig) (j : Job P) (js : List (Job P)) (es : List (Event P)) (w w' : Worker P)
      → w.phase ≡ spawning j js
      → w.permits ≡ 0
      → w.in_flight ≡ []
      → run_worker cfg es w ≡ some w'
      → (w'.phase ≡ spawning j js) × (w'.handled ≡ w.handled)
  unfolding step
  starved-stuck cfg j js es w w' p n f h =
      let (a, b, c, d) = run-keeps cfg Starved keep es w w' h (p, n, f, refl) in (a, d)
    where
      Starved : Worker P → Type 0
      Starved v =
          (v.phase ≡ spawning j js) × (v.permits ≡ 0) × (v.in_flight ≡ []) × (v.handled ≡ w.handled)

      keep : (e : Event P) (v v' : Worker P) → step cfg e v ≡ some v' → Starved v → Starved v'
      keep e v v' q s = ground arith
