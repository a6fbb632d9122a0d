-- ===== src/Demos/Burst.antt =====
-- The burst of examples/producer.rs lands whole or not at all.
use skip_locked.Prelude.{
  ℕ, zero, suc, ◌≡◌, List, [], ◌∷◌, ◌++◌, ◌⊎◌, inl, inr, arith, refl, append_assoc,
}
use skip_locked.Postgres.{Result, ok, IsErr}
use skip_locked.Postgres.Json.{Json}
use skip_locked.Jobs.{Row, Db}
use skip_locked.Session.{Wire, delivered, dropped, reply_lost, World, Tx, begin, commit, ◌>>=◌}
use skip_locked.Enqueue.{new_row, enqueue, notify_ready}
use skip_locked.Enqueue.Atomic.{Untouched}
use skip_locked.Demos.Producer.{burst_payload, burst, produce}

module _ {P : Type 0} (json : Json P) where
  -- The rows of the turns from `i` on, with ids from `id` on, the newest first.
  abbrev pub burst_rows : ℕ → ℕ → ℕ → ℕ → List (Row P)
  burst_rows zero i id now = []
  burst_rows (suc count) i id now =
      burst_rows count (suc i) (suc id) now
      ++ (new_row id "webhook.normalize" (burst_payload json i) now ∷ [])

  pub record Grown (rows : List (Row P)) (tx tx' : Tx P) : Type 0 where
    pub jobs : tx'.work.jobs ≡ rows ++ tx.work.jobs
    pub queued : tx'.queued ≡ tx.queued

  abbrev InTx : ℕ → ℕ → Tx P → World P → Result (Tx P) → World P → Type 0
  InTx count i tx w r w' =
      Untouched w.db w'.db
      × (((tx' : Tx P) × (r ≡ ok tx')
            × Grown (burst_rows count i tx.work.next_id tx.started) tx tx')
          ⊎ IsErr r)

  -- One enqueue of the loop.
  enqueue-InTx :
      (i : ℕ) (tx : Tx P) (db : Db P) (now : ℕ) (ws : List Wire)
      → let (r, w') =
          enqueue tx "webhook.normalize"
            (burst_payload json i)
            (record { db = db; clock = now; wire = ws }) in
        Untouched db w'.db
        × (((x : ℕ × Tx P) × (r ≡ ok x)
              × Grown
                  (new_row tx.work.next_id "webhook.normalize" (burst_payload json i) tx.started
                    ∷ [])
                  tx
                  (x.1)
              × (x.1.work.next_id ≡ suc tx.work.next_id)
              × (x.1.started ≡ tx.started))
            ⊎ IsErr r)
  unfolding enqueue
  enqueue-InTx i tx db now [] =
      (ground arith, inl (_, refl, record { jobs = refl; queued = refl }, refl, refl))
  enqueue-InTx i tx db now (delivered ∷ ws) =
      (ground arith, inl (_, refl, record { jobs = refl; queued = refl }, refl, refl))
  enqueue-InTx i tx db now (dropped ∷ ws) = ground arith
  enqueue-InTx i tx db now (reply_lost ∷ ws) = ground arith

  burst-InTx :
      (count i : ℕ) (tx : Tx P) (w : World P)
      → let (r, w') = burst json count i tx w in InTx count i tx w r w'
  unfolding burst
  burst-InTx zero i tx w = (ground arith, inl (_, refl, record { jobs = refl; queued = refl }))
  burst-InTx (suc count) i tx w =
      let (r, w1) = enqueue tx "webhook.normalize" (burst_payload json i) w in
      let (u, a) = enqueue-InTx i tx w.db w.clock w.wire in
      elim a [
        | inl (x, e, g, n, t) ↦ ground (
          arith,
          u,
          e,
          g.jobs,
          g.queued,
          n,
          t,
          burst-InTx count (suc i) (x.1) w1,
          append_assoc (burst_rows count (suc i) (suc tx.work.next_id) tx.started)
              (new_row tx.work.next_id "webhook.normalize" (burst_payload json i) tx.started ∷ [])
              tx.work.jobs,
        )
        | inr q ↦ ground (arith, u, q)
      ]

  -- The notification and the commit, on a transaction.
  abbrev Closed : Tx P → Db P → Result (Unit {0}) → Db P → Type 0
  Closed tx db r db' =
      ((db'.jobs ≡ tx.work.jobs) × (db'.notified ≡ suc db.notified)) ⊎ (Untouched db db' × IsErr r)

  close-Closed :
      (tx : Tx P) (db : Db P) (now : ℕ) (ws : List Wire)
      → let (r, w') = (notify_ready tx >>= commit) (record { db = db; clock = now; wire = ws }) in
        Closed tx db r w'.db
  unfolding notify_ready commit
  close-Closed tx db now [] = ground arith
  close-Closed tx db now (dropped ∷ ws) = ground arith
  close-Closed tx db now (reply_lost ∷ ws) = ground arith
  close-Closed tx db now (delivered ∷ []) = ground arith
  close-Closed tx db now (delivered ∷ dropped ∷ ws) = ground arith
  close-Closed tx db now (delivered ∷ reply_lost ∷ ws) = ground arith
  close-Closed tx db now (delivered ∷ delivered ∷ ws) = ground arith

  abbrev Whole : ℕ → Db P → ℕ → Result (Unit {0}) → Db P → Type 0
  Whole n db now r db' =
      ((db'.jobs ≡ burst_rows n 0 db.next_id now ++ db.jobs) × (db'.notified ≡ suc db.notified))
      ⊎ (Untouched db db' × IsErr r)

  begun :
      (n : ℕ) (tx : Tx P) (w : World P)
      → tx.work ≡ w.db
      → tx.started ≡ w.clock
      → let (r, w') = (burst json n 0 tx >>= λ t. notify_ready t >>= commit) w in
        Whole n w.db w.clock r w'.db
  begun n tx w e t =
      let (r, w1) = burst json n 0 tx w in
      let (u, a) = burst-InTx n 0 tx w in
      elim a [
        | inl (tx', q, g) ↦
            ground (arith, e, t, u, q, g.jobs, close-Closed tx' w1.db w1.clock w1.wire)
        | inr q ↦ ground (arith, u, q)
      ]

  by_wire :
      (n : ℕ) (db : Db P) (now : ℕ) (ws : List Wire)
      → let (r, w') = produce json n (record { db = db; clock = now; wire = ws }) in
        Whole n db now r w'.db
  unfolding produce begin
  by_wire n db now [] = begun n _ _ refl refl
  by_wire n db now (delivered ∷ ws) = begun n _ _ refl refl
  by_wire n db now (dropped ∷ ws) = ground arith
  by_wire n db now (reply_lost ∷ ws) = ground arith

  -- Whatever round trip fails, the database afterwards has all the jobs of the burst and one
  -- notification more, or it is as it was but for the sequence, and the caller has an error.
  pub produce-atomic :
      (n : ℕ) (w : World P)
      → let (r, w') = produce json n w in
        ((w'.db.jobs ≡ burst_rows n 0 w.db.next_id w.clock ++ w.db.jobs)
          × (w'.db.notified ≡ suc w.db.notified))
        ⊎ (Untouched w.db w'.db × IsErr r)
  unfolding produce
  produce-atomic n w = by_wire n w.db w.clock w.wire
