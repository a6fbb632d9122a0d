-- ===== src/Bench/Crew/Drains.antt =====
-- The crew claims the whole backlog, completes it in the third part, and stops.
use skip_locked.Prelude.{
  ℕ, ◌+◌, ◌*◌, ◌≤◌, ◌<◌, ◌≡◌, refl, List, [], ◌∷◌, Bool, true, Option, some, none, String, arith,
  count_if, inl, inr, Option-cases, length, ap, subst, sym, ◌∙◌, if◌then◌else◌,
}
use skip_locked.Postgres.OrderBy.{OrderBy}
use skip_locked.Jobs.{Row, Db}
use skip_locked.Queue.Lawful.{Inv}
use skip_locked.Claimers.{pick}
use skip_locked.Bench.Drained.{List-cases}
use skip_locked.Bench.Crew.{
  Crew, CrewTurn, begins, answers, marks, take_at, crew_of, crew_turn, crew_turns,
}
use skip_locked.Bench.Crew.Rows.{is_open, is_bad}
use skip_locked.Bench.Crew.Marks.{is_finished, sizes, lefts}
use skip_locked.Bench.Crew.Kept.{Crewed, to_go, open_in, loose_in, begin-Crewed, loose_all}
use skip_locked.Bench.Crew.Answered.{answer-Crewed}
use skip_locked.Bench.Crew.Marked.{mark-Crewed}

module _ {P : Type 0} where
  pub impossible : {A : Type 0} (t : Crew P) → ◌≡◌ {A = Option (Crew P)} none (some t) → A
  impossible t h = absurd (cc)

  -- A turn has one outcome.
  same_turn :
      (Q : Crew P → Type 0) (o : Option (Crew P)) (t : Crew P)
      → o ≡ some t
      → ((u : Crew P) × (o ≡ some u) × Q u)
      → Q t
  same_turn Q o t h (u, a, q) =
      let h' : ◌≡◌ {A = Option (Crew P)} (some u) (some t) = sym a ∙ h in
      let e : u ≡ t = cc in subst Q e q

  not_stuck :
      {A : Type 0} {Q : Crew P → Type 0} (o : Option (Crew P))
      → o ≡ none
      → ((u : Crew P) × (o ≡ some u) × Q u)
      → A
  not_stuck o h (u, a, q) = impossible u (sym h ∙ a)

module _ {P : Type 0} (order : OrderBy (Row P) (λ r. r.run_at)) (kinds : List String)
    (size start : ℕ) (completing : Bool) where
  abbrev pub left_over : Crew P → ℕ
  left_over = to_go order kinds size start completing

  module _ (one : 1 ≤ size) (jobs workers already : ℕ) where
    abbrev pub Kept : Crew P → Type 0
    Kept = Crewed order kinds size start completing jobs workers already

    -- A turn keeps the invariant and leaves fewer to go.
    turn-Crewed :
        (s : Crew P)
        → Kept s
        → (x : CrewTurn) (t : Crew P) → crew_turn order kinds size start completing x s ≡ some t
        → Kept t × (left_over t < left_over s)
    unfolding crew_turn
    turn-Crewed s v (begins i d) t h = elim (Option-cases (take_at i s.waiting)) [
      | inl e ↦ impossible t (rw e at h)
      | inr ((w, ws), e) ↦
          same_turn (λ u. Kept u × (left_over u < left_over s)) _ t h
            (begin-Crewed order kinds size start completing one jobs workers already s v i d w ws e)
    ]
    turn-Crewed s v (answers i) t h = elim (Option-cases (pick i s.shared.flights)) [
      | inl e ↦ impossible t (rw e at h)
      | inr ((f, rest), e) ↦
          same_turn (λ u. Kept u × (left_over u < left_over s)) _ t h
            (answer-Crewed order kinds size start completing jobs workers already s v i f rest e)
    ]
    turn-Crewed s v (marks i) t h = elim (Option-cases (take_at i s.marking)) [
      | inl e ↦ impossible t (rw e at h)
      | inr ((b, rest), e) ↦
          same_turn (λ u. Kept u × (left_over u < left_over s)) _ t h
            (mark-Crewed order kinds size start completing jobs workers already s v i b rest e)
    ]

    turns-Crewed :
        (xs : List CrewTurn) (s t : Crew P)
        → Kept s
        → crew_turns order kinds size start completing xs s ≡ some t
        → Kept t × (length xs + left_over t ≤ left_over s)
    unfolding crew_turns
    turns-Crewed [] s t v h =
        let q : s ≡ t = cc in
        subst (λ u. Kept u × (0 + left_over u ≤ left_over s)) q (v, omega arith)
    turns-Crewed (x ∷ xs) s t v h =
        elim (Option-cases (crew_turn order kinds size start completing x s)) [
          | inl e ↦ impossible t (rw (crew_turns, e) at h)
          | inr (u, e) ↦
              let (w, less) = turn-Crewed s v x u e in
              let (z, fewer) = turns-Crewed xs u t w (rw (crew_turns, e) at h) in
              (z, omega (arith, less, fewer))
        ]

    module _ (s : Crew P) (v : Kept s)
        (stuck : (x : CrewTurn) → crew_turn order kinds size start completing x s ≡ none) where
      no_waiting : s.waiting ≡ []
      no_waiting = elim (List-cases s.waiting) [
        | inl e ↦ e
        | inr (w, ws, e) ↦ not_stuck _ (stuck (begins 0 0)) (
            begin-Crewed order kinds size start completing one jobs workers already s v 0 0 w ws
              (rw e refl))
      ]

      no_flights : s.shared.flights ≡ []
      no_flights = elim (List-cases s.shared.flights) [
        | inl e ↦ e
        | inr (f, rest, e) ↦ not_stuck _ (stuck (answers 0)) (
            answer-Crewed order kinds size start completing jobs workers already s v 0 f rest
              (rw e refl))
      ]

      no_batches : s.marking ≡ []
      no_batches = elim (List-cases s.marking) [
        | inl e ↦ e
        | inr (b, rest, e) ↦ not_stuck _ (stuck (marks 0)) (
            mark-Crewed order kinds size start completing jobs workers already s v 0 b rest
              (rw e refl))
      ]

      none_open : 1 ≤ workers → open_in order kinds size start completing s.shared.db ≡ 0
      none_open some_worker = omega (
        arith,
        loose_all order kinds size start completing s.shared.db.jobs,
        ap (λ fs. loose_in order kinds size start completing fs s.shared.db) no_flights,
        v.left (
            omega (
              arith,
              v.all_workers,
              some_worker,
              ap length no_waiting,
              ap length no_flights,
              ap length no_batches,
            )),
      )

  module _ (workers : List String) (db : Db P) (xs : List CrewTurn) (s : Crew P) (one : 1 ≤ size)
      (inv : Inv db) (bad : count_if (is_bad kinds start) db.jobs ≡ 0)
      (run : crew_turns order kinds size start completing xs (crew_of workers db) ≡ some s) where
    pub kept :
        Crewed order kinds size start completing
          (count_if (is_open kinds) db.jobs)
          (length workers)
          (count_if (is_finished kinds) db.jobs)
          s
        × (length xs + left_over s ≤ left_over (crew_of workers db))
    kept =
        turns-Crewed one (count_if (is_open kinds) db.jobs) (length workers)
          (count_if (is_finished kinds) db.jobs) xs (crew_of workers db) s
          (record {
            sound = record { queue = inv; single = λ i. omega arith; reserved = tt };
            bad = bad;
            all_workers = omega arith;
            all_jobs = omega arith;
            ours = tt;
            left = λ e. absurd (omega arith);
            busy = λ i. omega arith;
            finished = λ c. omega arith;
          })
          run

    -- With a batch of at least 1, and a backlog that is due at the start and has room for an attempt: however the
    -- workers' turns interleave, no run has more turns than twice the number of workers and jobs, and twice that of
    -- jobs more if they also complete them.
    pub length-crew_turns :
        length xs
        ≤ 2 * (length workers + count_if (is_open kinds) db.jobs)
          + (if completing then 2 * count_if (is_open kinds) db.jobs else 0)
    length-crew_turns = omega (arith, kept.1)

    module _ (some_worker : 1 ≤ length workers)
        (stuck : (x : CrewTurn) → crew_turn order kinds size start completing x s ≡ none) where
      none_left : count_if (is_open kinds) s.shared.db.jobs ≡ 0
      none_left =
          none_open one (count_if (is_open kinds) db.jobs) (length workers)
            (count_if (is_finished kinds) db.jobs) s kept.0 stuck some_worker

      no_batch : s.marking ≡ []
      no_batch =
          no_batches one (count_if (is_open kinds) db.jobs) (length workers)
            (count_if (is_finished kinds) db.jobs) s kept.0 stuck

      -- With a batch of at least 1, a backlog that is due at the start and has room for an attempt, and at least one
      -- worker: however the workers' turns interleave, where no turn is left the counter has the number of the jobs of
      -- the backlog, and none of them is left.
      pub crew_turns_drained :
          (s.counter ≡ count_if (is_open kinds) db.jobs)
          × (count_if (is_open kinds) s.shared.db.jobs ≡ 0)
      crew_turns_drained = (omega (arith, kept.0.all_jobs, none_left, ap sizes no_batch), none_left)

      -- If the workers also complete their jobs, and all else is so: there are as many more done jobs as the backlog
      -- had.
      pub crew_turns_completed :
          completing ≡ true
          → count_if (is_finished kinds) s.shared.db.jobs
            ≡ count_if (is_finished kinds) db.jobs + count_if (is_open kinds) db.jobs
      crew_turns_completed c = omega (arith, kept.0.finished c, none_left, ap lefts no_batch)
