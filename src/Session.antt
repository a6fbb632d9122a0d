-- ===== src/Session.antt =====
-- How the functions of the crate reach the database: statements on a pool, each a transaction of
-- its own, and explicit transactions. Every round trip may fail.
pub mod Outcomes
use skip_locked.Prelude.{ℕ, suc, ◌+◌, List, [], ◌∷◌, Bool, true, false, if◌then◌else◌}
use skip_locked.Postgres.{Error, io, Result, ok, err}
use skip_locked.Jobs.{Db}

-- A statement at the transaction's time `now()`. A statement that raises changes nothing.
abbrev pub Stmt : Type 0 → Type 0 → Type 0
Stmt P A = ℕ → Db P → Result (A × Db P)

-- What becomes of one round trip: the statement runs and its reply arrives; it never reaches the
-- server; or it runs and the reply is lost. The client sees an error in the last two.
pub data Wire : Type 0 where
  delivered dropped reply_lost : Wire

-- The database, the time and the fates of the round trips to come; past the list's end all are
-- delivered.
pub record World (P : Type 0) : Type 0 where
  pub db : Db P
  pub clock : ℕ
  pub wire : List Wire

abbrev pub M : Type 0 → Type 0 → Type 0
M P A = World P → Result A × World P

abbrev pub next_wire : List Wire → Wire
next_wire [] = delivered
next_wire (x ∷ xs) = x

abbrev pub later : List Wire → List Wire
later [] = []
later (x ∷ xs) = xs

module _ {P : Type 0} where
  abbrev pub pure : {A : Type 0} → A → M P A
  pure a w = (ok a, w)

  abbrev pub continue : {A B : Type 0} → Result A → (A → M P B) → M P B
  continue (ok a) f w = f a w
  continue (err e) f w = (err e, w)

  -- `?`: the first error ends the function.
  infixl 5 ◌>>=◌ ◌>>◌
  abbrev pub ◌>>=◌ : {A B : Type 0} → M P A → (A → M P B) → M P B
  ◌>>=◌ m f w = let (r, w') = m w in continue r f w'

  abbrev pub ◌>>◌ : {A B : Type 0} → M P A → M P B → M P B
  m >> k = m >>= λ _. k

  -- The world after the next round trip's fate is drawn, and that fate.
  abbrev pub drawn : World P → World P
  drawn w = record w { wire = later w.wire }

  abbrev pub settle : {A : Type 0} → Result (A × Db P) → World P → Result A × World P
  settle (ok (a, db)) w = (ok a, record w { db = db })
  settle (err e) w = (err e, w)

  -- The client's view of a round trip that would leave the server at the second world.
  abbrev pub reply : {A : Type 0} → Wire → World P → Result A × World P → Result A × World P
  reply delivered w out = out
  reply dropped w out = (err io, w)
  reply reply_lost w (r, w') = (err io, w')

  -- `.execute(pool)`, `.fetch_all(pool)`: the statement in a transaction of its own.
  unfoldable pub execute : {A : Type 0} → Stmt P A → M P A
  execute s w = reply (next_wire w.wire) (drawn w) (settle (s w.clock w.db) (drawn w))

-- An open transaction: the database as it sees it, its `now()`, and whether a notification is
-- queued for its commit (Postgres delivers equal notifications of one transaction once).
pub record Tx (P : Type 0) : Type 0 where
  pub work : Db P
  pub started : ℕ
  pub queued : Bool

abbrev pub bump : Bool → ℕ → ℕ
bump true n = suc n
bump false n = n

module _ {P : Type 0} where
  -- `pool.begin()`.
  unfoldable pub begin : M P (Tx P)
  begin w = reply (next_wire w.wire) (drawn w) (ok tx, drawn w)
    where
      tx : Tx P
      tx = record { work = w.db; started = w.clock; queued = false }

  -- What a rollback does not undo: the identity sequence.
  abbrev pub keep_sequence : ℕ → World P → World P
  keep_sequence n w = record w { db = record w.db { next_id = n } }

  abbrev pub settle_in :
      {A : Type 0} → Result (A × Db P) → Tx P → World P → Result (A × Tx P) × World P
  settle_in (ok (a, db)) tx w = (ok (a, record tx { work = db }), keep_sequence db.next_id w)
  settle_in (err e) tx w = (err e, w)

  -- `.execute(&mut **tx)`, `.fetch_one(&mut **tx)`.
  unfoldable pub execute_in : {A : Type 0} → Stmt P A → Tx P → M P (A × Tx P)
  execute_in s tx w =
      reply (next_wire w.wire) (drawn w) (settle_in (s tx.started tx.work) tx (drawn w))

  abbrev pub committed : Tx P → World P → World P
  committed tx w = record w { db = record tx.work { notified = bump tx.queued w.db.notified } }

  -- `tx.commit()`: the work becomes the database, and the queued notification is delivered.
  unfoldable pub commit : Tx P → M P (Unit {0})
  commit tx w = reply (next_wire w.wire) (drawn w) (ok tt, committed tx (drawn w))

  -- `tx.rollback()`, and the drop of a transaction that was not committed.
  unfoldable pub rollback : Tx P → M P (Unit {0})
  rollback tx w = reply (next_wire w.wire) (drawn w) (ok tt, drawn w)
