-- ===== src/Enqueue/Atomic.antt =====
-- Both the job and its notification land, or neither does.
use skip_locked.Prelude.{ℕ, suc, ◌≡◌, refl, List, [], ◌∷◌, ◌⊎◌, inl, arith, String}
use skip_locked.Postgres.{Result, ok, IsErr}
use skip_locked.Jobs.{Db}
use skip_locked.Session.{World, Wire, delivered, dropped, reply_lost}
use skip_locked.Enqueue.{new_row, enqueue_pool}

module _ {P : Type 0} where
  -- Every table is as it was; only the identity sequence may have moved.
  pub record Untouched (db db' : Db P) : Type 0 where
    pub jobs : db'.jobs ≡ db.jobs
    pub jobs_dead : db'.jobs_dead ≡ db.jobs_dead
    pub processed_events : db'.processed_events ≡ db.processed_events
    pub notifications : db'.notifications ≡ db.notifications
    pub notified : db'.notified ≡ db.notified

  pub record Landed (kind : String) (payload : P) (now : ℕ) (db db' : Db P) : Type 0 where
    pub jobs : db'.jobs ≡ new_row db.next_id kind payload now ∷ db.jobs
    pub notified : db'.notified ≡ suc db.notified
    pub next_id : db'.next_id ≡ suc db.next_id

  abbrev Both : String → P → ℕ → Db P → Result ℕ → Db P → Type 0
  Both kind payload now db r db' =
      (Landed kind payload now db db' × ((r ≡ ok db.next_id) ⊎ IsErr r))
      ⊎ (Untouched db db' × IsErr r)

  -- By the fates of the four round trips.
  by_wire :
      (kind : String) (payload : P) (db : Db P) (now : ℕ) (ws : List Wire)
      → let (r, w') = enqueue_pool kind payload (record { db = db; clock = now; wire = ws }) in
        Both kind payload now db r w'.db
  unfolding enqueue_pool
  by_wire kind payload db now [] =
      inl (record { jobs = refl; notified = refl; next_id = refl }, inl refl)
  by_wire kind payload db now (dropped ∷ ws) = ground arith
  by_wire kind payload db now (reply_lost ∷ ws) = ground arith
  by_wire kind payload db now (delivered ∷ []) = ground arith
  by_wire kind payload db now (delivered ∷ dropped ∷ ws) = ground arith
  by_wire kind payload db now (delivered ∷ reply_lost ∷ ws) = ground arith
  by_wire kind payload db now (delivered ∷ delivered ∷ []) = ground arith
  by_wire kind payload db now (delivered ∷ delivered ∷ dropped ∷ ws) = ground arith
  by_wire kind payload db now (delivered ∷ delivered ∷ reply_lost ∷ ws) = ground arith
  by_wire kind payload db now (delivered ∷ delivered ∷ delivered ∷ []) = ground arith
  by_wire kind payload db now (delivered ∷ delivered ∷ delivered ∷ dropped ∷ ws) = ground arith
  by_wire kind payload db now (delivered ∷ delivered ∷ delivered ∷ reply_lost ∷ ws) = ground arith
  by_wire kind payload db now (delivered ∷ delivered ∷ delivered ∷ delivered ∷ ws) = ground arith

  -- Whatever becomes of the four round trips of `enqueue_pool`, either the job and one notification
  -- are there, or neither is and an error was returned. An answer is the id of a job that landed.
  pub enqueue_pool-atomic :
      (kind : String) (payload : P) (w : World P)
      → let (r, w') = enqueue_pool kind payload w in
        (Landed kind payload w.clock w.db w'.db × ((r ≡ ok w.db.next_id) ⊎ IsErr r))
        ⊎ (Untouched w.db w'.db × IsErr r)
  enqueue_pool-atomic kind payload w = by_wire kind payload w.db w.clock w.wire
