-- ===== src/Service/Accounted.antt =====
-- The rows that the worker holds are those of the jobs that it has, and of the ones that it lost.
use skip_locked.Prelude.{
  ℕ, ◌+◌, ◌≤◌, ◌≡◌, refl, List, [], ◌∷◌, ◌++◌, Bool, true, false, Option, some, none, arith,
  count_if, count_if-append, ◌==◌, inl, inr, Option-cases, Bool-cases,
}
use skip_locked.Postgres.{Result, ok, err, io, Result-cases}
use skip_locked.Postgres.OrderBy.{OrderBy}
use skip_locked.Jobs.{Row, Db, Job}
use skip_locked.Jobs.Update.{update_where}
use skip_locked.Session.{Wire, delivered, dropped, reply_lost}
use skip_locked.Enqueue.{mark_done_sql, done_row}
use skip_locked.Queue.{claim, finish, after, apply}
use skip_locked.Queue.Lawful.{Inv}
use skip_locked.Queue.Steps.{apply-Inv}
use skip_locked.Demos.Example.{handle}
use skip_locked.Worker.{WorkerConfig, finished, Worker, step, claims, break_claim, ends}
use skip_locked.Claimers.Steps.{answer_of}
use skip_locked.Service.{
  Service, Act, internal, claim_arm, drop_claim, task_ends, is_internal, nth, end_of, act,
  with_worker, claim_result, mine_in, Step, own, other, Reach, here, next,
}
use skip_locked.Service.Others.{others-mine}
use skip_locked.Service.Owned.{
  owned, internal-owned, claims-owned, failed-owned, break_claim-owned, ends-owned,
}
use skip_locked.Service.Rows.{mine-one, claim-mine, done-mine}

module _ {P : Type 0} (cfg : WorkerConfig) (order : OrderBy (Row P) (λ r. r.run_at)) where
  -- By id: each running row of the worker is one of its jobs or a stranded one.
  pub record Accounted (s : Service P) : Type 0 where
    pub queue : Inv s.db
    pub rows :
        (i : ℕ)
        → mine_in cfg i s.db
          ≤ owned (λ j. j.id == i) s.worker + count_if (λ j. j.id == i) s.stranded

  with_worker-some :
      (o : Option (Worker P)) (db : Db P) (lost : List (Job P)) (t : Service P)
      → with_worker o db lost ≡ some t
      → (w : Worker P) × (o ≡ some w) × (t ≡ record { worker = w; db = db; stranded = lost })
  with_worker-some none db lost t h = let h' : ◌≡◌ {A = Option (Service P)} none (some t) = h in cc
  with_worker-some (some w) db lost t h =
      let h' : ◌≡◌ {A = Option (Service P)} (some (record { worker = w; db = db; stranded = lost }))
          (some t) =
        h in
      (w, refl, cc)

  -- A service with these parts is accounted for.
  made :
      (o : Option (Worker P)) (db : Db P) (lost : List (Job P)) (t : Service P)
      → with_worker o db lost ≡ some t
      → Inv db
      → ((w : Worker P)
          → o ≡ some w
          → (i : ℕ) → mine_in cfg i db ≤ owned (λ j. j.id == i) w + count_if (λ j. j.id == i) lost)
      → Accounted t
  made o db lost t h inv rows =
      let (w, e, q) = with_worker-some o db lost t h in
      rw q (record { queue = inv; rows = rows w e })

  module _ (s t : Service P) (v : Accounted s) where
    claimed-Inv :
        (held : ℕ → Bool) (now : ℕ) → Inv (after s.db (claim_result cfg order held now s.db))
    claimed-Inv held now =
        unfold apply in
        apply-Inv (claim order held cfg.kinds cfg.batch cfg.worker_id) now s.db v.queue

    abbrev completed : Job P → Db P
    completed j = record s.db { jobs = update_where (λ r. r.id == j.id) done_row s.db.jobs }

    -- The task's job is done, or its row is stranded.
    done-Accounted :
        (n : ℕ) (now : ℕ) (j : Job P)
        → nth n s.worker.in_flight ≡ some j
        → with_worker (step cfg (ends n) s.worker) (completed j) s.stranded ≡ some t
        → Accounted t
    done-Accounted n now j q h =
        made (step cfg (ends n) s.worker) (completed j) s.stranded t h
          (unfold apply mark_done_sql in apply-Inv (finish j.id) now s.db v.queue)
          (λ w g i. ground (
            arith,
            v.rows i,
            mine-one cfg i s.db v.queue,
            done-mine cfg i j.id s.db.jobs,
            ends-owned (λ k. k.id == i) cfg s.worker w n j q g,
          ))

    ended :
        (n : ℕ) (now : ℕ) (x : Wire) (j : Job P)
        → nth n s.worker.in_flight ≡ some j
        → end_of cfg order n now x (some j) s ≡ some t
        → Accounted t
    unfolding handle
    ended n now delivered j q h = done-Accounted n now j q h
    ended n now reply_lost j q h = done-Accounted n now j q h
    ended n now dropped j q h =
        made (step cfg (ends n) s.worker) s.db (j ∷ s.stranded) t h v.queue
          (λ w g i. omega (arith, v.rows i, ends-owned (λ k. k.id == i) cfg s.worker w n j q g))

    own-Accounted : (a : Act P) → act cfg order a s ≡ some t → Accounted t
    unfolding act
    own-Accounted (internal e) h = elim (Bool-cases (is_internal e)) [
      | inr f ↦ let h' : ◌≡◌ {A = Option (Service P)} none (some t) = rw f at h in cc
      | inl f ↦
          let h' : with_worker (step cfg e s.worker) s.db s.stranded ≡ some t = rw f at h in
          made (step cfg e s.worker) s.db s.stranded t h' v.queue
            (λ w q i. omega (arith, v.rows i, internal-owned (λ j. j.id == i) cfg s.worker w e f q))
    ]
    own-Accounted (claim_arm held now delivered) h =
        elim (Result-cases (claim_result cfg order held now s.db)) [
          | inl ((jobs, db'), q) ↦
              let h' : with_worker (step cfg (claims (ok jobs)) s.worker) db' s.stranded ≡ some t =
                rw q at h in
              made (step cfg (claims (ok jobs)) s.worker) db' s.stranded t h'
                (rw q at (claimed-Inv held now))
                (λ w g i.
                  let m : mine_in cfg i db' ≡ mine_in cfg i s.db + count_if (λ j. j.id == i) jobs =
                    rw q at (claim-mine cfg i order held now s.db v.queue) in
                  omega (arith, v.rows i, m, claims-owned (λ j. j.id == i) cfg s.worker w jobs g))
          | inr (x, q) ↦
              let h' : with_worker (step cfg (claims (err x)) s.worker) s.db s.stranded ≡ some t =
                rw q at h in
              made (step cfg (claims (err x)) s.worker) s.db s.stranded t h' v.queue
                (λ w g i. omega (arith, v.rows i, failed-owned (λ j. j.id == i) cfg s.worker w x g))
        ]
    own-Accounted (claim_arm held now dropped) h =
        made (step cfg (claims (err io)) s.worker) s.db s.stranded t h v.queue
          (λ w g i. omega (arith, v.rows i, failed-owned (λ j. j.id == i) cfg s.worker w io g))
    own-Accounted (claim_arm held now reply_lost) h =
        elim (Result-cases (claim_result cfg order held now s.db)) [
          | inl ((jobs, db'), q) ↦
              let h' : with_worker (step cfg (claims (err io)) s.worker) db' (jobs ++ s.stranded)
                  ≡ some t =
                rw q at h in
              made (step cfg (claims (err io)) s.worker) db' (jobs ++ s.stranded) t h'
                (rw q at (claimed-Inv held now))
                (λ w g i.
                  let m : mine_in cfg i db' ≡ mine_in cfg i s.db + count_if (λ j. j.id == i) jobs =
                    rw q at (claim-mine cfg i order held now s.db v.queue) in
                  omega (
                    arith,
                    v.rows i,
                    m,
                    failed-owned (λ j. j.id == i) cfg s.worker w io g,
                    count_if-append (λ j. j.id == i) jobs s.stranded,
                  ))
          | inr (x, q) ↦
              let h' : with_worker (step cfg (claims (err io)) s.worker) s.db s.stranded ≡ some t =
                rw q at h in
              made (step cfg (claims (err io)) s.worker) s.db s.stranded t h' v.queue (λ w g i.
                omega (arith, v.rows i, failed-owned (λ j. j.id == i) cfg s.worker w io g))
        ]
    own-Accounted (drop_claim held now true) h =
        let jobs = answer_of (claim_result cfg order held now s.db) in
        made (step cfg (break_claim jobs) s.worker)
          (after s.db (claim_result cfg order held now s.db)) s.stranded t h (claimed-Inv held now)
          (λ w g i. omega (
            arith,
            v.rows i,
            claim-mine cfg i order held now s.db v.queue,
            break_claim-owned (λ j. j.id == i) cfg s.worker w jobs g,
          ))
    own-Accounted (drop_claim held now false) h =
        made (step cfg (break_claim []) s.worker) s.db s.stranded t h v.queue
          (λ w g i. omega (arith, v.rows i, break_claim-owned (λ j. j.id == i) cfg s.worker w [] g))
    own-Accounted (task_ends n now x) h = elim (Option-cases (nth n s.worker.in_flight)) [
      | inl q ↦ let h' : ◌≡◌ {A = Option (Service P)} none (some t) = rw q at h in cc
      | inr (j, q) ↦
          let h' : end_of cfg order n now x (some j) s ≡ some t = rw q at h in ended n now x j q h'
    ]

  Step-Accounted : {s t : Service P} → Step cfg order s t → Accounted s → Accounted t
  Step-Accounted {s} {t} (own a h) v = own-Accounted s t v a h
  Step-Accounted {s} {t} (other now op theirs e) v = rw e (record {
    queue = apply-Inv op now s.db v.queue;
    rows = λ i. omega (arith, others-mine cfg i op now s.db theirs, v.rows i);
  })

  -- Whatever the process does, and whatever statements other sessions run but a claim under its id, from tables where it
  -- has no row: each running row that is locked by the worker belongs to one of its jobs: one that waits in the batch, is
  -- in flight or was in a dropped claim, or one whose reply or completion was lost.
  pub Reach-Accounted :
      {db : Db P} {s : Service P}
      → Inv db
      → ((i : ℕ) → mine_in cfg i db ≡ 0)
      → Reach cfg order db s
      → Accounted s
  Reach-Accounted inv free here = record { queue = inv; rows = λ i. omega (arith, free i) }
  Reach-Accounted inv free (next r st) = Step-Accounted st (Reach-Accounted inv free r)

  -- Beside other sessions that do not claim under its id, from tables where it has no row: a worker that has returned,
  -- with no task in flight, no dropped claim that ran and no lost round trip, holds no row.
  pub shutdown-clean :
      {db : Db P} {s : Service P} (r : Result (Unit {0}))
      → Inv db
      → ((i : ℕ) → mine_in cfg i db ≡ 0)
      → Reach cfg order db s
      → s.worker.phase ≡ finished r
      → s.worker.in_flight ≡ []
      → s.worker.abandoned ≡ []
      → s.stranded ≡ []
      → (i : ℕ) → mine_in cfg i s.db ≡ 0
  shutdown-clean r inv free reach f q a z i =
      ground (arith, (Reach-Accounted inv free reach).rows i, f, q, a, z)
