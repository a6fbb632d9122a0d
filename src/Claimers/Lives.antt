-- ===== src/Claimers/Lives.antt =====
-- The life of a job beside claims that hold their locks.
use skip_locked.Prelude.{ℕ, ◌≡◌, refl, List, [], false, some, String, Option-cases, inl, inr, subst}
use skip_locked.Prelude.Int.{ℤ, pos}
use skip_locked.Postgres.{Result-cases, ◌>>=◌}
use skip_locked.Postgres.OrderBy.{OrderBy}
use skip_locked.Postgres.Json.{Json}
use skip_locked.Jobs.{Row, Db}
use skip_locked.Claim.{update_claimed, limit}
use skip_locked.Claim.Fair.{Candidate, times_four}
use skip_locked.Queue.{Op, IsClaim, claim}
use skip_locked.Queue.Lawful.{Inv}
use skip_locked.Queue.Conserved.{IsWhole, run-IsWhole}
use skip_locked.Queue.Lifecycle.{stage_of, Goes, stays}
use skip_locked.Queue.Lives.{apply-Goes}
use skip_locked.Claimers.{Flight, Shared, Move, lock, commit_flight, abort, pick, move, commit_pick}
use skip_locked.Claimers.Steps.{Step, claiming, claiming_fairly, lock_fairly, statement, Reach}
use skip_locked.Claimers.Reserved.{Reserved}
use skip_locked.Claimers.Sound.{Sound, Reach-Sound, picked-Reserved}
use skip_locked.Claimers.Serial.{Reach-Serial}

module _ {P : Type 0} where
  -- A whole statement is itself; the steps of a claim are those of one.
  abbrev pub IsOf : {s t : Shared P} → Step s t → Op P → Type 0
  IsOf (claiming order m) op = IsClaim op
  IsOf (claiming_fairly json order window kinds size tenant_cap worker now) op = IsClaim op
  IsOf (statement now op' w) op = op ≡ op'

  module _ (i : ℕ) where
    abbrev Lives : Db P → Db P → Type 0
    Lives db db' = (op : Op P) × IsClaim op × Goes i op (stage_of i db) (stage_of i db')

    still : (order : OrderBy (Row P) (λ r. r.run_at)) (db : Db P) → Lives db db
    still order db = (claim order (λ j. false) [] (pos 0) "", tt, stays _ _)

    commit-Lives :
        (order : OrderBy (Row P) (λ r. r.run_at)) (s : Shared P) (f : Flight) (rest : List Flight)
        → Reserved s.db f
        → Inv s.db
        → IsWhole s.db
        → Lives s.db (commit_pick (some (f, rest)) s).db
    commit-Lives order s f rest v inv whole =
        let goes = apply-Goes i v.replay.op f.started s.db inv whole in
        let e = v.replay.tables s.db inv.fresh v.same in
        elim (Result-cases (update_claimed f.ids f.worker f.started s.db)) [
          | inl ((jobs, db'), q) ↦ rw q (v.replay.op, v.replay.claims, rw (e, q) at goes)
          | inr (x, q) ↦ rw q (still order s.db)
        ]

    move-Lives :
        {s : Shared P} (order : OrderBy (Row P) (λ r. r.run_at)) (m : Move)
        → Sound s
        → IsWhole s.db
        → Lives s.db (move order m s).db
    unfolding move
    move-Lives {s} order (lock worker kinds k now) v w = still order s.db
    move-Lives {s} order (commit_flight n) v w = elim (Option-cases (pick n s.flights)) [
      | inl e ↦ rw e (still order s.db)
      | inr ((f, rest), e) ↦
          rw e (commit-Lives order s f rest (picked-Reserved s v order n f rest e) v.queue w)
    ]
    move-Lives {s} order (abort n) v w = elim (Option-cases (pick n s.flights)) [
      | inl e ↦ rw e (still order s.db)
      | inr ((f, rest), e) ↦ rw e (still order s.db)
    ]

    window-Lives :
        (s : Shared P) (json : Json P) (order : OrderBy (Row P) (λ r. r.run_at))
        (window : OrderBy Candidate (λ c. c.run_at)) (kinds : List String) (size tenant_cap : ℤ)
        (worker : String) (now : ℕ)
        → Lives s.db (lock_fairly json order window kinds size tenant_cap worker now s).db
    unfolding lock_fairly
    window-Lives s json order window kinds size tenant_cap worker now =
        elim (Result-cases (times_four size >>= limit)) [
          | inr (x, q) ↦ rw q (still order s.db)
          | inl (k, q) ↦ rw q (still order s.db)
        ]

    step-Lives :
        {s t : Shared P}
        → Sound s
        → IsWhole s.db
        → (step : Step s t)
        → (op : Op P) × IsOf step op × Goes i op (stage_of i s.db) (stage_of i t.db)
    step-Lives sound w (claiming order m) =
        let (op, c, g) = move-Lives order m sound w in (op, c, g)
    step-Lives {s} sound w (claiming_fairly json order window kinds size tenant_cap worker now) =
        let (op, c, g) = window-Lives s json order window kinds size tenant_cap worker now in
        (op, c, g)
    step-Lives {s} sound w (statement now op p) = (op, refl, apply-Goes i op now s.db sound.queue w)

    -- From a table that keeps its invariant and has lost no job, whatever the sessions do at the same time: each of
    -- their steps does to the job with any id what the life of a job allows, and a whole statement what it allows this
    -- statement.
    pub Step-Goes :
        {db : Db P} {s t : Shared P}
        → Inv db
        → IsWhole db
        → Reach db s
        → (step : Step s t)
        → (op : Op P) × IsOf step op × Goes i op (stage_of i s.db) (stage_of i t.db)
    Step-Goes {db} {s} inv whole r step =
        let z = Reach-Serial inv r in
        let sound = Reach-Sound inv r in
        let w : IsWhole s.db = subst IsWhole z.tables (run-IsWhole z.ops db whole) in
        step-Lives sound w step
