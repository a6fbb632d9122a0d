-- ===== src/Idempotent/Effects.antt =====
-- What a run of `process` leaves, whatever fails on the way.
use skip_locked.Prelude.{
  ℕ, ◌≡◌, List, [], ◌∷◌, true, false, String, str_eq, arith, ◌⊎◌, inl, inr, if◌then◌else◌, count_if,
  Bool-cases, eq_iff,
}
use skip_locked.Postgres.{Result, ok, IsErr}
use skip_locked.Jobs.{Db}
use skip_locked.Session.{Wire, delivered, dropped, reply_lost, World}
use skip_locked.Idempotent.{Outcome, applied, duplicate, event_key, processed, process}

module _ {P : Type 0} where
  -- The event is there with its effect, and it was not before.
  pub record Added (key : String) (db db' : Db P) : Type 0 where
    pub is_new : processed key db ≡ false
    pub processed_events : db'.processed_events ≡ key ∷ db.processed_events
    pub notifications : db'.notifications ≡ key ∷ db.notifications

  pub record Kept (db db' : Db P) : Type 0 where
    pub processed_events : db'.processed_events ≡ db.processed_events
    pub notifications : db'.notifications ≡ db.notifications

  abbrev Answer : String → Db P → Result Outcome → Db P → Type 0
  Answer key db r db' =
      (Added key db db' × ((r ≡ ok applied) ⊎ IsErr r))
      ⊎ (Kept db db' × (((r ≡ ok duplicate) × (processed key db ≡ true)) ⊎ IsErr r))

  -- By the fates of the four round trips.
  by_wire :
      (carrier_id event_id : String) (db : Db P) (now : ℕ) (ws : List Wire)
      → let (r, w') = process carrier_id event_id (record { db = db; clock = now; wire = ws }) in
        Answer (event_key carrier_id event_id) db r w'.db
  unfolding process
  by_wire c v db now [] = ground arith
  by_wire c v db now (dropped ∷ ws) = ground arith
  by_wire c v db now (reply_lost ∷ ws) = ground arith
  by_wire c v db now (delivered ∷ []) = ground arith
  by_wire c v db now (delivered ∷ dropped ∷ ws) = ground arith
  by_wire c v db now (delivered ∷ reply_lost ∷ ws) = ground arith
  by_wire c v db now (delivered ∷ delivered ∷ []) = ground arith
  by_wire c v db now (delivered ∷ delivered ∷ dropped ∷ ws) = ground arith
  by_wire c v db now (delivered ∷ delivered ∷ reply_lost ∷ ws) = ground arith
  by_wire c v db now (delivered ∷ delivered ∷ delivered ∷ []) = ground arith
  by_wire c v db now (delivered ∷ delivered ∷ delivered ∷ dropped ∷ ws) = ground arith
  by_wire c v db now (delivered ∷ delivered ∷ delivered ∷ reply_lost ∷ ws) = ground arith
  by_wire c v db now (delivered ∷ delivered ∷ delivered ∷ delivered ∷ ws) = ground arith

  -- Whatever becomes of its round trips, `process` either adds a new event together with its side
  -- effect, or changes neither table. It answers `Applied` for the first only, `Duplicate` for the
  -- second only and when the event was there.
  pub process-atomic :
      (carrier_id event_id : String) (w : World P)
      → let key = event_key carrier_id event_id in
        let (r, w') = process carrier_id event_id w in
        (Added key w.db w'.db × ((r ≡ ok applied) ⊎ IsErr r))
        ⊎ (Kept w.db w'.db × (((r ≡ ok duplicate) × (processed key w.db ≡ true)) ⊎ IsErr r))
  process-atomic c v w = by_wire c v w.db w.clock w.wire

  -- Every key of `processed_events` has one side effect, every other key none.
  abbrev pub IsOnce : Db P → Type 0
  IsOnce db =
      (key : String) → count_if (str_eq key) db.notifications ≡ (if processed key db then 1 else 0)

  -- Deliveries of events, one run of the handler each.
  abbrev pub deliveries : List (String × String) → World P → World P
  deliveries [] w = w
  deliveries ((c, v) ∷ es) w = deliveries es (process c v w).1

  pub Added-IsOnce : (key : String) (db db' : Db P) → Added key db db' → IsOnce db → IsOnce db'
  Added-IsOnce key db db' a once k = elim (Bool-cases (str_eq k key)) [
    | inl e ↦ let q : k ≡ key = (eq_iff k key).0 e in ground (arith, once k, once key, a)
    | inr e ↦ ground (arith, once k, a)
  ]

  Kept-IsOnce : (db db' : Db P) → Kept db db' → IsOnce db → IsOnce db'
  Kept-IsOnce db db' a once k = ground (arith, once k, a)

  pub process-IsOnce : (c v : String) (w : World P) → IsOnce w.db → IsOnce (process c v w).1.db
  process-IsOnce c v w once = elim (process-atomic c v w) [
    | inl (a, r) ↦ Added-IsOnce (event_key c v) w.db (process c v w).1.db a once
    | inr (a, r) ↦ Kept-IsOnce w.db (process c v w).1.db a once
  ]

  -- However often events are delivered, and whatever round trips fail, each processed event has
  -- exactly one side effect and no other event has any.
  pub deliveries-IsOnce :
      (es : List (String × String)) (w : World P) → IsOnce w.db → IsOnce (deliveries es w).db
  deliveries-IsOnce [] w once = once
  deliveries-IsOnce ((c, v) ∷ es) w once =
      deliveries-IsOnce es (process c v w).1 (process-IsOnce c v w once)
