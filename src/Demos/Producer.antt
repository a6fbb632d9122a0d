-- ===== src/Demos/Producer.antt =====
-- examples/producer.rs: one transaction for a burst of jobs and their notification.
use Prim.Native.String.{◌++◌ as append}
use skip_locked.Prelude.{ℕ, zero, suc, ◌%◌, List, [], ◌∷◌, String}
use skip_locked.Postgres.Json.{Json}
use skip_locked.Session.{M, Tx, pure, ◌>>=◌, begin, commit}
use skip_locked.Enqueue.{enqueue, notify_ready}
use skip_locked.Migration.Payloads.{get, decimal}

abbrev pub carriers : List String
carriers = "A" ∷ "B" ∷ "C" ∷ "D" ∷ []

module _ {P : Type 0} (json : Json P) where
  abbrev pub burst_payload : ℕ → P
  burst_payload i = json.object (
      ("carrier_id", get carriers (i % 4))
      ∷ ("event_id", append "evt-" (decimal 20 i))
      ∷ ("status", "in_transit")
      ∷ [])

  -- The loop's turns from `i` on, `count` of them.
  unfoldable pub burst : ℕ → ℕ → Tx P → M P (Tx P)
  unfolding enqueue
  burst zero i tx = pure tx
  burst (suc count) i tx =
      enqueue tx "webhook.normalize" (burst_payload i) >>= λ x. burst count (suc i) (x.1)

  unfoldable pub produce : ℕ → M P (Unit {0})
  unfolding begin burst notify_ready commit
  produce n = do tx ← begin; tx' ← burst n 0 tx; tx'' ← notify_ready tx'; commit tx''
