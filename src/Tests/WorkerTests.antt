-- ===== src/Tests/WorkerTests.antt =====
-- A worker that handles a batch and is cancelled, and one without permits.
use skip_locked.Prelude.{
  ℕ, ◌+◌, ◌≤◌, ◌<◌, ◌≡◌, refl, List, [], ◌∷◌, true, some, ◌==◌, length, count_if, arith,
}
use skip_locked.Postgres.{ok}
use skip_locked.Jobs.{Job}
use skip_locked.Worker.{
  WorkerConfig, default_config, Worker, Event, start, run_worker, step, cancel, listens,
  break_claim, claims, notification, spawn, ends, drained, spawning, selecting, draining, finished,
}
use skip_locked.Worker.Permits.{run_worker-backpressure}
use skip_locked.Worker.Handled.{Accounts, pending, run_worker-Accounts}
use skip_locked.Worker.Drain.{cancelled-no_new_work, cancelled-progress, drained-quiet, remaining}
use skip_locked.Worker.Live.{CanMove, cancelled-CanMove}
use skip_locked.Worker.Stuck.{starved-stuck}

abbrev two : WorkerConfig
two = record (default_config "1") { fanout_concurrency = 2 }

abbrev none_at_once : WorkerConfig
none_at_once = record (default_config "2") { fanout_concurrency = 0 }

abbrev job : ℕ → Job ℕ
job i = record { id = i; kind = "k"; payload = 0; attempts = 1 }

abbrev worked : List (Event ℕ)
worked =
    listens (ok tt)
    ∷ claims (ok [])
    ∷ notification
    ∷ claims (ok (job 1 ∷ job 2 ∷ job 3 ∷ []))
    ∷ spawn
    ∷ cancel
    ∷ spawn
    ∷ ends 1
    ∷ spawn
    ∷ []

abbrev stopped : List (Event ℕ)
stopped = break_claim (job 4 ∷ []) ∷ ends 0 ∷ ends 0 ∷ []

-- Three jobs were handled, the first is through, and the token has fired.
abbrev busy : Worker ℕ
busy = record (start two) {
  phase = selecting;
  cancelled = true;
  permits = 0;
  in_flight = job 3 ∷ job 2 ∷ [];
  claimed = job 1 ∷ job 2 ∷ job 3 ∷ [];
  handled = job 3 ∷ job 2 ∷ job 1 ∷ [];
}

abbrev quiet : Worker ℕ
quiet = record busy {
  phase = draining;
  permits = 2;
  in_flight = [];
  claimed = job 4 ∷ job 1 ∷ job 2 ∷ job 3 ∷ [];
  abandoned = job 4 ∷ [];
}

worked-busy : run_worker two worked (start two) ≡ some busy
unfolding run_worker
worked-busy = refl

busy-quiet : run_worker two stopped busy ≡ some quiet
unfolding run_worker
busy-quiet = refl

run_worker-backpressure_example :
    (length busy.in_flight ≤ 2) × (busy.permits + length busy.in_flight ≡ 2)
run_worker-backpressure_example = run_worker-backpressure two worked busy worked-busy

run_worker-Accounts_example : Accounts (λ j. j.id == 2) busy
run_worker-Accounts_example = run_worker-Accounts two (λ j. j.id == 2) worked busy worked-busy

cancelled-no_new_work_example :
    count_if (λ j. j.id == 4) quiet.handled + count_if (λ j. j.id == 4) (pending quiet.phase)
    ≡ count_if (λ j. j.id == 4) busy.handled + count_if (λ j. j.id == 4) (pending busy.phase)
cancelled-no_new_work_example =
    cancelled-no_new_work two (λ j. j.id == 4) stopped busy quiet refl busy-quiet

abbrev one_left : Worker ℕ
one_left = record busy { permits = 1; in_flight = job 3 ∷ [] }

busy-one_left : step two (ends 1) busy ≡ some one_left
unfolding step
busy-one_left = refl

cancelled-progress_example : remaining two one_left < remaining two busy
cancelled-progress_example =
    cancelled-progress two (ends 1) busy one_left refl (λ e. cc) busy-one_left

abbrev over : Worker ℕ
over = record quiet { phase = finished (ok tt) }

quiet-over : step two drained quiet ≡ some over
unfolding step
quiet-over = refl

drained-quiet_example : over.in_flight ≡ []
drained-quiet_example = drained-quiet two quiet over (omega arith) refl quiet-over

abbrev starving : List (Event ℕ)
starving = listens (ok tt) ∷ claims (ok (job 1 ∷ [])) ∷ []

abbrev starved : Worker ℕ
starved = record (start none_at_once) { phase = spawning (job 1) []; claimed = job 1 ∷ [] }

abbrev starved_on : Worker ℕ
starved_on = record starved { cancelled = true }

starving-starved : run_worker none_at_once starving (start none_at_once) ≡ some starved
unfolding run_worker
starving-starved = refl

starved-on : run_worker none_at_once (cancel ∷ []) starved ≡ some starved_on
unfolding run_worker
starved-on = refl

starved-stuck_example :
    (starved_on.phase ≡ spawning (job 1) []) × (starved_on.handled ≡ starved.handled)
starved-stuck_example =
    starved-stuck none_at_once (job 1) [] (cancel ∷ []) starved starved_on refl refl refl starved-on

cancelled-CanMove_example : CanMove two busy
cancelled-CanMove_example = cancelled-CanMove two busy refl (omega arith) refl (λ r e. cc)
