-- ===== src/Demos/Example.antt =====
-- examples/worker.rs: the worker's configuration and its handler.
use Prim.Native.String.{◌++◌ as append}
use skip_locked.Prelude.{[], ◌∷◌, String}
use skip_locked.Prelude.Int.{pos}
use skip_locked.Postgres.{ok}
use skip_locked.Jobs.{Job}
use skip_locked.Session.{M}
use skip_locked.Enqueue.{mark_done}
use skip_locked.Worker.{WorkerConfig}

-- For the text of the process id.
abbrev pub example_config : String → WorkerConfig
example_config process_id = record {
  worker_id = append "worker-" process_id;
  kinds = "webhook.normalize" ∷ "tracking.refresh" ∷ [];
  batch = pos 64;
  fanout_concurrency = 32;
  poll_interval = record { secs = 1; nanos = 0 };
  drain_grace = record { secs = 30; nanos = 0 };
}

-- An error of `mark_done` is logged and dropped.
unfoldable pub handle : {P : Type 0} → Job P → M P (Unit {0})
unfolding mark_done
handle job w = let (r, w') = mark_done job.id w in (ok tt, w')
