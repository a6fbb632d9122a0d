-- ===== src/Queue/Settled.antt =====
-- Where the life of a job comes to rest.
use skip_locked.Prelude.{ℕ, ◌≡◌, ◌≢◌, refl, List, [], ◌∷◌, Option, none, some, All, sym, ◌∙◌, ap}
use skip_locked.Jobs.{Db}
use skip_locked.Queue.{Op, retry, bury, apply, run}
use skip_locked.Queue.Lawful.{Inv}
use skip_locked.Queue.Steps.{apply-Inv}
use skip_locked.Queue.Conserved.{IsWhole, apply-IsWhole}
use skip_locked.Queue.Lifecycle.{
  Stage, finished, buried, attempts_of, stage_of, Goes, stays, enqueued, enqueued_at, claimed,
  claimed_fairly, reaped, retried, completed, given_up,
}
use skip_locked.Queue.Lives.{apply-Goes}

module _ {P : Type 0} (i : ℕ) where
  -- A statement that neither retries nor buries this job.
  abbrev pub Spares : Op P → Type 0
  Spares (retry j error) = j ≢ i
  Spares (bury j error) = j ≢ i
  Spares _ = Unit {0}

  Goes-finished :
      (n : ℕ) {op : Op P} {s t : Stage}
      → Goes i op s t
      → s ≡ finished n
      → Spares op
      → t ≡ finished n
  Goes-finished n (stays op s) e q = e
  Goes-finished n (enqueued kind payload) e q = absurd (cc)
  Goes-finished n (enqueued_at kind payload run_at) e q = absurd (cc)
  Goes-finished n (claimed order held kinds m worker k h) e q = absurd (cc)
  Goes-finished n (claimed_fairly json order window held kinds size share worker k h) e q =
      absurd (cc)
  Goes-finished n (reaped lease w k) e q = absurd (cc)
  Goes-finished n (retried error s k h) e q = absurd (q refl)
  Goes-finished n (completed s k h) e q =
      let same : some n ≡ some k = sym (ap attempts_of e) ∙ h in
      let k_eq : k ≡ n = cc in ap finished k_eq
  Goes-finished n (given_up error s k h) e q = absurd (q refl)

  Goes-buried : {op : Op P} {s t : Stage} → Goes i op s t → s ≡ buried → t ≡ buried
  Goes-buried (stays op s) e = e
  Goes-buried (enqueued kind payload) e = absurd (cc)
  Goes-buried (enqueued_at kind payload run_at) e = absurd (cc)
  Goes-buried (claimed order held kinds m worker k h) e = absurd (cc)
  Goes-buried (claimed_fairly json order window held kinds size share worker k h) e = absurd (cc)
  Goes-buried (reaped lease w k) e = absurd (cc)
  Goes-buried (retried error s k h) e =
      let none_left : ◌≡◌ {A = Option ℕ} none (some k) = sym (ap attempts_of e) ∙ h in absurd (cc)
  Goes-buried (completed s k h) e =
      let none_left : ◌≡◌ {A = Option ℕ} none (some k) = sym (ap attempts_of e) ∙ h in absurd (cc)
  Goes-buried (given_up error s k h) e = refl

  -- From a table that keeps its invariant and has lost no job, a done job stays done, with the attempts that it took,
  -- whatever statements run, as long as none of them retries or buries it.
  pub run-finished :
      (n : ℕ) (ops : List (ℕ × Op P)) (db : Db P)
      → Inv db
      → IsWhole db
      → All (λ o. Spares o.1) ops
      → stage_of i db ≡ finished n
      → stage_of i (run ops db) ≡ finished n
  unfolding run
  run-finished n [] db v w q e = e
  run-finished n ((now, op) ∷ ops) db v w q e =
      run-finished n ops (apply op now db) (apply-Inv op now db v) (apply-IsWhole op now db w) q.1
        (Goes-finished n (apply-Goes i op now db v w) e q.0)

  -- From such a table, a job in jobs_dead stays there.
  pub run-buried :
      (ops : List (ℕ × Op P)) (db : Db P)
      → Inv db
      → IsWhole db
      → stage_of i db ≡ buried
      → stage_of i (run ops db) ≡ buried
  unfolding run
  run-buried [] db v w e = e
  run-buried ((now, op) ∷ ops) db v w e =
      run-buried ops (apply op now db) (apply-Inv op now db v) (apply-IsWhole op now db w)
        (Goes-buried (apply-Goes i op now db v w) e)
