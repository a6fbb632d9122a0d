-- ===== src/Claimers/Serial.antt =====
-- The sessions refine a serial history of statements.
use skip_locked.Prelude.{
  String, ℕ, ◌≡◌, refl, sym, List, [], ◌∷◌, ◌++◌, some, append_assoc, Option-cases, inl, inr,
}
use mathlib.Core.List.{append-nil}
use skip_locked.Postgres.{Result-cases, ◌>>=◌}
use skip_locked.Postgres.Json.{Json}
use skip_locked.Prelude.Int.{ℤ}
use skip_locked.Claim.Fair.{Candidate, times_four}
use skip_locked.Postgres.OrderBy.{OrderBy}
use skip_locked.Jobs.{Row, Db, Job}
use skip_locked.Claim.{update_claimed, limit}
use skip_locked.Queue.{Op, apply, run}
use skip_locked.Queue.Lawful.{Inv}
use skip_locked.Claimers.{Flight, Shared, Move, lock, commit_flight, abort, pick, move, commit_pick}
use skip_locked.Claimers.Steps.{
  claiming, claiming_fairly, lock_fairly, statement, Reach, here, next, answer,
}
use skip_locked.Claimers.Reserved.{Reserved}
use skip_locked.Claimers.Sound.{Sound, Reach-Sound, picked-Reserved}

module _ {P : Type 0} where
  -- The jobs that the statements of a history return, the latest first.
  abbrev pub answers : List (ℕ × Op P) → Db P → List (Job P)
  answers [] db = []
  answers ((now, op) ∷ ops) db = answers ops (apply op now db) ++ answer op now db

  run-append :
      (ops : List (ℕ × Op P)) (now : ℕ) (op : Op P) (db : Db P)
      → run (ops ++ ((now, op) ∷ [])) db ≡ apply op now (run ops db)
  unfolding run
  run-append [] now op db = refl
  run-append ((t, o) ∷ ops) now op db = run-append ops now op (apply o t db)

  answers-append :
      (ops : List (ℕ × Op P)) (now : ℕ) (op : Op P) (db : Db P)
      → answers (ops ++ ((now, op) ∷ [])) db ≡ answer op now (run ops db) ++ answers ops db
  unfolding run
  answers-append [] now op db = sym (append-nil (answer op now db))
  answers-append ((t, o) ∷ ops) now op db =
      rw (answers-append ops now op (apply o t db))
        (append_assoc (answer op now (run ops (apply o t db))) _ _)

  -- A history of whole statements, one after the other, with the same tables and the same answers.
  pub record Serial (db : Db P) (s : Shared P) : Type 0 where
    pub ops : List (ℕ × Op P)
    pub tables : run ops db ≡ s.db
    pub returns : answers ops db ≡ s.returned

  more :
      {db : Db P} {s : Shared P} (now : ℕ) (op : Op P)
      → Serial db s
      → Serial db (record s { db = apply op now s.db; returned = answer op now s.db ++ s.returned })
  more {db} {s} now op z = record {
    ops = z.ops ++ ((now, op) ∷ []);
    tables = rw (run-append z.ops now op db, z.tables);
    returns = rw (answers-append z.ops now op db, z.tables, z.returns);
  }

  commit-Serial :
      {db : Db P} {s : Shared P} (f : Flight) (rest : List Flight)
      → Reserved s.db f
      → Inv s.db
      → Serial db s
      → Serial db (commit_pick (some (f, rest)) s)
  commit-Serial {db} {s} f rest v inv z =
      let z' = more f.started v.replay.op z in
      let e = v.replay.tables s.db inv.fresh v.same in
      let a = v.replay.answers s.db inv.fresh v.same in
      elim (Result-cases (update_claimed f.ids f.worker f.started s.db)) [
        | inl ((jobs, db'), q) ↦ rw q (record {
          ops = z'.ops;
          tables = rw (e, q) at z'.tables;
          returns = rw (a, q) at z'.returns;
        })
        | inr (x, q) ↦ rw q (record { ops = z.ops; tables = z.tables; returns = z.returns })
      ]

  move-Serial :
      {db : Db P} {s : Shared P} (order : OrderBy (Row P) (λ r. r.run_at)) (m : Move)
      → Sound s
      → Serial db s
      → Serial db (move order m s)
  unfolding move
  move-Serial order (lock worker kinds k now) v z = record {
    ops = z.ops;
    tables = z.tables;
    returns = z.returns;
  }
  move-Serial {s = s} order (commit_flight n) v z = elim (Option-cases (pick n s.flights)) [
    | inl e ↦ rw e z
    | inr ((f, rest), e) ↦
        rw e (commit-Serial f rest (picked-Reserved s v order n f rest e) v.queue z)
  ]
  move-Serial {s = s} order (abort n) v z = elim (Option-cases (pick n s.flights)) [
    | inl e ↦ rw e z
    | inr ((f, rest), e) ↦ rw e (record { ops = z.ops; tables = z.tables; returns = z.returns })
  ]

  window-Serial :
      {db : Db P} {s : Shared P} (json : Json P) (order : OrderBy (Row P) (λ r. r.run_at))
      (window : OrderBy Candidate (λ c. c.run_at)) (kinds : List String) (size tenant_cap : ℤ)
      (worker : String) (now : ℕ)
      → Serial db s
      → Serial db (lock_fairly json order window kinds size tenant_cap worker now s)
  unfolding lock_fairly
  window-Serial json order window kinds size tenant_cap worker now z =
      elim (Result-cases (times_four size >>= limit)) [
        | inr (x, q) ↦ rw q z
        | inl (k, q) ↦ rw q (record { ops = z.ops; tables = z.tables; returns = z.returns })
      ]

  -- Whatever the sessions do at the same time, there is a history of whole statements, one after the other, that
  -- leaves the same tables and gives the workers the same jobs.
  pub Reach-Serial : {db : Db P} {s : Shared P} → Inv db → Reach db s → Serial db s
  unfolding run
  Reach-Serial inv here = record { ops = []; tables = refl; returns = refl }
  Reach-Serial inv (next r (claiming order m)) =
      move-Serial order m (Reach-Sound inv r) (Reach-Serial inv r)
  Reach-Serial inv (next r (claiming_fairly json order window kinds size tenant_cap worker now)) =
      window-Serial json order window kinds size tenant_cap worker now (Reach-Serial inv r)
  Reach-Serial inv (next r (statement now op w)) = more now op (Reach-Serial inv r)
