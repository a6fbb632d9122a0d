-- ===== src/Session/Outcomes.antt =====
-- What one statement on a pool can leave behind, whatever the wire does.
use skip_locked.Prelude.{ℕ, ◌≡◌, refl}
use skip_locked.Postgres.{Error, Result, ok, err, io}
use skip_locked.Jobs.{Db}
use skip_locked.Session.{
  Stmt, Wire, delivered, dropped, reply_lost, World, execute, reply, settle, drawn, next_wire,
}

module _ {P A : Type 0} where
  -- The statement runs on this database and gives this new one.
  abbrev pub Runs : Stmt P A → ℕ → Db P → Db P → Type 0
  Runs s now db db' = (a : A) × (s now db ≡ ok (a, db'))

  -- A statement on a pool ends in one of two ways: nothing happened, or the statement ran whole. The
  -- caller has its answer only in the second, and after an error cannot tell which it was.
  pub data Outcome (s : Stmt P A) (w : World P) (r : Result A) (db' : Db P) : Type 0 where
    answered : (a : A) → s w.clock w.db ≡ ok (a, db') → r ≡ ok a → Outcome s w r db'
    unheard : (a : A) → s w.clock w.db ≡ ok (a, db') → r ≡ err io → Outcome s w r db'
    unchanged : (e : Error) → db' ≡ w.db → r ≡ err e → Outcome s w r db'

  reply-Outcome :
      (s : Stmt P A) (w : World P) (x : Wire) (out : Result (A × Db P))
      → s w.clock w.db ≡ out
      → let (r, w') = reply x (drawn w) (settle out (drawn w)) in Outcome s w r w'.db
  reply-Outcome s w delivered (ok (a, db')) e = answered a e refl
  reply-Outcome s w delivered (err e') e = unchanged e' refl refl
  reply-Outcome s w dropped (ok (a, db')) e = unchanged io refl refl
  reply-Outcome s w dropped (err e') e = unchanged io refl refl
  reply-Outcome s w reply_lost (ok (a, db')) e = unheard a e refl
  reply-Outcome s w reply_lost (err e') e = unchanged io refl refl

  pub execute-Outcome :
      (s : Stmt P A) (w : World P) → Outcome s w (execute s w).0 (execute s w).1.db
  unfolding execute
  execute-Outcome s w = reply-Outcome s w (next_wire w.wire) (s w.clock w.db) refl
