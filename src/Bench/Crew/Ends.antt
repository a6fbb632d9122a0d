-- ===== src/Bench/Crew/Ends.antt =====
-- A run of the crew never gets stuck: it can go on until each worker has left its loop.
use skip_locked.Prelude.{
  ℕ, zero, suc, ◌+◌, ◌≤◌, ◌<◌, ◌≡◌, refl, List, [], ◌∷◌, ◌++◌, Bool, true, some, String, arith,
  count_if, inl, inr, length, ap, Bool-cases, ltb, Option-cases, ◌∙◌,
}
use skip_locked.Postgres.OrderBy.{OrderBy}
use skip_locked.Jobs.{Row, Db}
use skip_locked.Queue.Lawful.{Inv}
use skip_locked.Bench.Drained.{List-cases}
use skip_locked.Bench.Crew.{Crew, CrewTurn, begins, answers, marks, crew_of, crew_turn, crew_turns}
use skip_locked.Bench.Crew.Rows.{is_open, is_bad}
use skip_locked.Bench.Crew.Marks.{is_finished, sizes, lefts}
use skip_locked.Bench.Crew.Kept.{begin-Crewed, loose_all, loose_in}
use skip_locked.Bench.Crew.Answered.{answer-Crewed}
use skip_locked.Bench.Crew.Marked.{mark-Crewed}
use skip_locked.Bench.Crew.Drains.{Kept, left_over, kept, impossible}

module _ {P : Type 0} (order : OrderBy (Row P) (λ r. r.run_at)) (kinds : List String)
    (size start : ℕ) (completing : Bool) (one : 1 ≤ size) where
  module _ (jobs workers already : ℕ) where
    abbrev Good : Crew P → Type 0
    Good = Kept order kinds size start completing one jobs workers already

    abbrev FewerLeft : Crew P → Crew P → Type 0
    FewerLeft u s =
        left_over order kinds size start completing u
        < left_over order kinds size start completing s

    abbrev Possible : Crew P → CrewTurn → Type 0
    Possible s x =
        (u : Crew P) × (crew_turn order kinds size start completing x s ≡ some u)
        × (Good u × FewerLeft u s)

    -- While a worker is in its loop, some turn can happen.
    one_more : (s : Crew P) → Good s → s.ended < workers → (x : CrewTurn) × Possible s x
    unfolding crew_turn
    one_more s v more = elim (List-cases s.waiting) [
      | inr (w, ws, e) ↦ (
        begins 0 0,
        begin-Crewed order kinds size start completing one jobs workers already s v 0 0 w ws
            (rw e refl),
      )
      | inl a ↦ elim (List-cases s.shared.flights) [
        | inr (f, rest, e) ↦ (
          answers 0,
          answer-Crewed order kinds size start completing jobs workers already s v 0 f rest
              (rw e refl),
        )
        | inl b ↦ elim (List-cases s.marking) [
          | inr (m, rest, e) ↦ (
            marks 0,
            mark-Crewed order kinds size start completing jobs workers already s v 0 m rest
                (rw e refl),
          )
          | inl c ↦
              absurd (omega (arith, v.all_workers, more, ap length a, ap length b, ap length c))
        ]
      ]
    ]

    to_the_end :
        (fuel : ℕ) (s : Crew P)
        → Good s
        → left_over order kinds size start completing s ≤ fuel
        → (xs : List CrewTurn) × (t : Crew P) × (crew_turns order kinds size start completing xs s
            ≡ some t)
          × (t.ended ≡ workers)
    unfolding crew_turns
    to_the_end zero s v h = elim (Bool-cases (ltb s.ended workers)) [
      | inr e ↦ ([], s, refl, ground (arith, v.all_workers, e))
      | inl e ↦
          let (x, (u, turns, (good, less))) = one_more s v (ground (arith, e)) in
          absurd (omega (arith, less, h))
    ]
    to_the_end (suc fuel) s v h = elim (Bool-cases (ltb s.ended workers)) [
      | inr e ↦ ([], s, refl, ground (arith, v.all_workers, e))
      | inl e ↦
          let (x, (u, turns, (good, less))) = one_more s v (ground (arith, e)) in
          let (xs, t, run, all) = to_the_end fuel u good (omega (arith, less, h)) in
          (x ∷ xs, t, rw (crew_turns, turns) run, all)
    ]

  crew_turns-append :
      (xs ys : List CrewTurn) (s t : Crew P)
      → crew_turns order kinds size start completing xs s ≡ some t
      → crew_turns order kinds size start completing (xs ++ ys) s
        ≡ crew_turns order kinds size start completing ys t
  unfolding crew_turns
  crew_turns-append [] ys s t h =
      let e : s ≡ t = cc in ap (crew_turns order kinds size start completing ys) e
  crew_turns-append (x ∷ xs) ys s t h =
      elim (Option-cases (crew_turn order kinds size start completing x s)) [
        | inl e ↦ impossible t (rw (crew_turns, e) at h)
        | inr (u, e) ↦ rw (crew_turns, e) (crew_turns-append xs ys u t (rw (crew_turns, e) at h))
      ]

  empty : {A : Type 0} (xs : List A) → length xs ≡ 0 → xs ≡ []
  empty [] e = refl
  empty (x ∷ xs) e = absurd (omega (arith, e))

  module _ (workers : List String) (db : Db P) (inv : Inv db)
      (bad : count_if (is_bad kinds start) db.jobs ≡ 0) where
    -- With a batch of at least 1, and a backlog that is due at the start and has room for an attempt: whatever turns
    -- the workers have taken, there are turns that end the loop of each of them.
    pub crew_turns-ends :
        (xs : List CrewTurn) (s : Crew P)
        → crew_turns order kinds size start completing xs (crew_of workers db) ≡ some s
        → (ys : List CrewTurn) × (t : Crew P) × (crew_turns order kinds size start completing
              (xs ++ ys)
              (crew_of workers db)
            ≡ some t)
          × (t.ended ≡ length workers)
    crew_turns-ends xs s run =
        let (v, _) = kept order kinds size start completing workers db xs s one inv bad run in
        let (ys, t, more, all) =
          to_the_end (count_if (is_open kinds) db.jobs) (length workers)
            (count_if (is_finished kinds) db.jobs) (left_over order kinds size start completing s) s
            v (omega arith) in
        (ys, t, crew_turns-append xs ys (crew_of workers db) s run ∙ more, all)

    -- Where each worker has left its loop, the backlog is counted, none of it is open, and it is done if the workers
    -- complete their jobs.
    pub ended-counted :
        (xs : List CrewTurn) (s : Crew P)
        → crew_turns order kinds size start completing xs (crew_of workers db) ≡ some s
        → 1 ≤ length workers
        → s.ended ≡ length workers
        → (s.counter ≡ count_if (is_open kinds) db.jobs)
          × (completing ≡ true
              → count_if (is_finished kinds) s.shared.db.jobs
                ≡ count_if (is_finished kinds) db.jobs + count_if (is_open kinds) db.jobs)
    ended-counted xs s run some_worker all =
        let (v, _) = kept order kinds size start completing workers db xs s one inv bad run in
        let flights : s.shared.flights ≡ [] =
          empty s.shared.flights (omega (arith, v.all_workers, all)) in
        let batches : s.marking ≡ [] = empty s.marking (omega (arith, v.all_workers, all)) in
        let none_open : count_if (is_open kinds) s.shared.db.jobs ≡ 0 = omega (
          arith,
          loose_all order kinds size start completing s.shared.db.jobs,
          ap (λ fs. loose_in order kinds size start completing fs s.shared.db) flights,
          v.left (omega (arith, all, some_worker)),
        ) in
        (
          omega (arith, v.all_jobs, none_open, ap sizes batches),
          λ c. omega (arith, v.finished c, none_open, ap lefts batches),
        )
