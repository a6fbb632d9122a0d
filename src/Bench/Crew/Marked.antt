-- ===== src/Bench/Crew/Marked.antt =====
-- The turn of the crew in which a worker completes a job of its batch, or has completed them all.
use skip_locked.Prelude.{
  ℕ, suc, ◌+◌, ◌≤◌, ◌<◌, ◌≡◌, refl, List, [], ◌∷◌, Bool, true, false, some, String, arith, count_if,
  All-mem, All-intro, Memᴰ, inl, inr, Bool-cases, length, ap, if◌then◌else◌, ◌==◌, ==_iff,
}
use skip_locked.Postgres.OrderBy.{OrderBy}
use skip_locked.Jobs.{Row, Db, Job}
use skip_locked.Jobs.Update.{update_where}
use skip_locked.Claim.Batch.{Below-Unique}
use skip_locked.Claimers.{Flight, held_now, is_held}
use skip_locked.Claimers.Counts.{with_id}
use skip_locked.Claimers.Reserved.{Reserved, reserved-claimable}
use skip_locked.Claimers.Sound.{Sound, Step-Sound}
use skip_locked.Claimers.Steps.{statement, answer}
use skip_locked.Queue.{finish, apply}
use skip_locked.Enqueue.{mark_done_sql, done_row}
use skip_locked.Bench.Drained.{List-cases}
use skip_locked.Bench.Crew.{Crew, Batch, marks, take_at, crew_turn}
use skip_locked.Bench.Crew.Rows.{length-take_at, is_open}
use skip_locked.Bench.Crew.Marks.{
  marked_times, batches-take_at, is_busy, busy-le, busy-mark, bad-mark, loose-mark, named-mark,
  finished-mark, open-mark,
}
use mathlib.Core.List.Memᴰ.{head, tail}
use skip_locked.Bench.Crew.Kept.{Crewed, to_go}

flight_of-held :
    (i : ℕ) (fs : List Flight)
    → held_now fs i ≡ true
    → (f : Flight) × Memᴰ f fs × (is_held f i ≡ true)
flight_of-held i [] h = cc
flight_of-held i (f ∷ fs) h = elim (Bool-cases (is_held f i)) [
  | inl t ↦ (f, head refl, t)
  | inr u ↦ let (g, m, t) = flight_of-held i fs (ground (arith, u)) in (g, tail m, t)
]

module _ {P : Type 0} where
  -- A test that some rows pass has one of them.
  row_of-count :
      (p : Row P → Bool) (rs : List (Row P))
      → 1 ≤ count_if p rs
      → (r : Row P) × Memᴰ r rs × (p r ≡ true)
  row_of-count p [] h = absurd (omega arith)
  row_of-count p (r ∷ rs) h = elim (Bool-cases (p r)) [
    | inl t ↦ (r, head refl, t)
    | inr u ↦ let (q, m, t) = row_of-count p rs (ground (arith, u)) in (q, tail m, t)
  ]

module _ {P : Type 0} (order : OrderBy (Row P) (λ r. r.run_at)) (kinds : List String)
    (size start : ℕ) (completing : Bool) (jobs workers already : ℕ) (s : Crew P)
    (v : Crewed order kinds size start completing jobs workers already s) (n : ℕ) (b : Batch P)
    (rest : List (Batch P)) (e : take_at n s.marking ≡ some (b, rest)) where
  abbrev Next : Crew P → Type 0
  Next t =
      Crewed order kinds size start completing jobs workers already t
      × (to_go order kinds size start completing t < to_go order kinds size start completing s)

  fewer : length s.marking ≡ suc (length rest)
  fewer = length-take_at n s.marking rest b e

  -- The batch has no job left.
  through :
      b.left ≡ []
      → Next (record s {
        waiting = b.worker ∷ s.waiting;
        marking = rest;
        counter = s.counter + b.size;
      })
  through none_left =
      let (times, jobs_left, rows) = batches-take_at n s.marking rest b e in
      (
        record {
          sound = v.sound;
          bad = v.bad;
          all_workers = omega (arith, v.all_workers, fewer);
          all_jobs = omega (arith, v.all_jobs, rows);
          ours = v.ours;
          left = v.left;
          busy = λ i. omega (arith, v.busy i, times i);
          finished = λ c. omega (arith, v.finished c, jobs_left, ap length none_left);
        },
        omega (arith, fewer, jobs_left, ap length none_left),
      )

  module _ (j : Job P) (js : List (Job P)) (some_left : b.left ≡ j ∷ js) where
    abbrev marked_db : Db P
    marked_db = record s.shared.db {
      jobs = update_where (λ r. r.id == j.id) done_row s.shared.db.jobs;
    }

    abbrev marked : Crew P
    marked = record s {
      shared = record s.shared { db = marked_db };
      marking = record b { left = js } ∷ rest;
    }

    times_left :
        (i : ℕ)
        → marked_times i s.marking
          ≡ (if j.id == i then 1 else 0) + count_if (λ k. k.id == i) js + marked_times i rest
    times_left i = omega (
      arith,
      (batches-take_at n s.marking rest b e).0 i,
      ap (count_if (λ k. k.id == i)) some_left,
    )

    one_row : with_id j.id s.shared.db.jobs ≤ 1
    one_row = Below-Unique s.shared.db.next_id s.shared.db.jobs v.sound.queue.fresh j.id

    is_busy_now : 1 ≤ count_if (is_busy kinds j.id) s.shared.db.jobs
    is_busy_now = ground (arith, v.busy j.id, times_left j.id, (==_iff j.id j.id).1 refl)

    -- No claim holds the row: it runs.
    not_held : held_now s.shared.flights j.id ≡ false
    not_held = elim (Bool-cases (held_now s.shared.flights j.id)) [
      | inr u ↦ u
      | inl t ↦
          let (f, m, h) = flight_of-held j.id s.shared.flights t in
          let (r, mr, busy) = row_of-count (is_busy kinds j.id) s.shared.db.jobs is_busy_now in
          ground (
            arith,
            h,
            busy,
            reserved-claimable f s.shared.db
                (All-mem (Reserved s.shared.db) s.shared.flights v.sound.reserved m) r mr,
          )
    ]

    marked-Sound : Sound marked.shared
    unfolding answer apply mark_done_sql
    marked-Sound = Step-Sound (statement start (finish j.id) not_held) v.sound

    open_same : count_if (is_open kinds) marked_db.jobs ≡ count_if (is_open kinds) s.shared.db.jobs
    open_same = open-mark kinds j.id s.shared.db.jobs one_row is_busy_now

    marked-Next : Next marked
    marked-Next =
        let (times, jobs_left, rows) = batches-take_at n s.marking rest b e in
        (
          record {
            sound = marked-Sound;
            bad = omega (arith, v.bad, bad-mark kinds j.id start s.shared.db.jobs);
            all_workers = omega (arith, v.all_workers, fewer);
            all_jobs = omega (arith, v.all_jobs, rows, open_same);
            ours = All-intro _ s.shared.flights (λ g m.
                let (k, p, l) = All-mem _ s.shared.flights v.ours m in
                (
                  k,
                  p,
                  λ h. omega (
                    arith,
                    loose-mark kinds j.id s.shared.flights s.shared.db.jobs,
                    l (omega (arith, h, named-mark kinds j.id g.ids s.shared.db.jobs)),
                  ),
                ));
            left = λ h.
                omega (arith, v.left h, loose-mark kinds j.id s.shared.flights s.shared.db.jobs);
            busy = λ i. ground (
              arith,
              v.busy i,
              times_left i,
              busy-mark kinds j.id i s.shared.db.jobs,
              busy-le kinds i s.shared.db.jobs,
              Below-Unique s.shared.db.next_id s.shared.db.jobs v.sound.queue.fresh i,
            );
            finished = λ c. omega (
              arith,
              v.finished c,
              jobs_left,
              ap length some_left,
              open_same,
              finished-mark kinds j.id s.shared.db.jobs one_row is_busy_now,
            );
          },
          ground (arith, fewer, jobs_left, ap length some_left, open_same),
        )

  pub mark-Crewed :
      (t : Crew P) × (crew_turn order kinds size start completing (marks n) s ≡ some t) × Next t
  unfolding crew_turn
  mark-Crewed = elim (List-cases b.left) [
    | inl q ↦ (_, rw (e, q) refl, through q)
    | inr (j, js, q) ↦ (marked j js q, rw (e, q) refl, marked-Next j js q)
  ]
