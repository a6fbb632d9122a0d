-- ===== src/Bench/Crew/Answered.antt =====
-- The turn of the crew in which a claim commits and is answered.
use skip_locked.Prelude.{
  ℕ, suc, ◌+◌, ◌++◌, ◌&&◌, ◌≤◌, ◌<◌, ◌≡◌, refl, List, [], ◌∷◌, Bool, false, some, String, arith,
  contains, any, count_if, All, All-mem, All-intro, inl, inr, Bool-cases, length, ◌==◌,
}
use skip_locked.Postgres.{ok}
use skip_locked.Postgres.OrderBy.{OrderBy}
use skip_locked.Jobs.{Row, Db, Job}
use skip_locked.Claim.{update_claimed, overflows}
use skip_locked.Claim.Effect.{batch, claimed_db, update_claimed-total, length-batch}
use skip_locked.Claimers.{Flight, Shared, commit_flight, pick, move}
use skip_locked.Claimers.Counts.{pick-All, returned_with_id}
use skip_locked.Claimers.Reserved.{reserved-claimable}
use skip_locked.Claimers.Sound.{Sound, move-Sound, picked-Reserved}
use skip_locked.Bench.Claimed.{none-any}
use skip_locked.Bench.Crew.{Crew, answers, after_rows, crew_turn}
use skip_locked.Bench.Crew.Rows.{
  length-pick, is_open, is_bad, is_loose, AsFound, open-update, bad-update, named-update,
  named-open, named-overflows, loose-commit,
}
use skip_locked.Bench.Crew.Marks.{
  marked_times, is_busy, is_finished, busy-commit, not_busy, finished-commit,
}
use skip_locked.Bench.Crew.Kept.{Crewed, OfCrew, to_go}

module _ {P : Type 0} (order : OrderBy (Row P) (λ r. r.run_at)) (kinds : List String)
    (size start : ℕ) (completing : Bool) (jobs workers already : ℕ) (s : Crew P)
    (v : Crewed order kinds size start completing jobs workers already s) (i : ℕ) (f : Flight)
    (rest : List Flight) (e : pick i s.shared.flights ≡ some (f, rest)) where
  abbrev after_db : Db P
  after_db = claimed_db f.ids f.worker f.started s.shared.db

  abbrev Ours : List Flight → Db P → Flight → Type 0
  Ours = OfCrew order kinds size start completing

  fewer : length s.shared.flights ≡ suc (length rest)
  fewer = length-pick i s.shared.flights rest f e

  picked : Ours s.shared.flights s.shared.db f × All (Ours s.shared.flights s.shared.db) rest
  picked = pick-All _ i s.shared.flights f rest e v.ours

  found : All (AsFound f) s.shared.db.jobs
  found = All-intro (AsFound f) s.shared.db.jobs (λ r m c.
      reserved-claimable f s.shared.db (picked-Reserved s.shared v.sound order i f rest e) r m
        (ground (arith, c)))

  opened :
      count_if (λ r. is_open kinds r && contains f.ids r.id) s.shared.db.jobs
      ≡ count_if (λ r. contains f.ids r.id) s.shared.db.jobs
  opened = named-open kinds f s.shared.db.jobs picked.0.0 found

  looser :
      count_if (is_loose kinds rest) after_db.jobs
      ≤ count_if (is_loose kinds s.shared.flights) s.shared.db.jobs
  looser =
      loose-commit kinds s.shared.flights rest f i f.started f.worker s.shared.db.jobs picked.0.1 e

  no_overflow : any (overflows f.ids) s.shared.db.jobs ≡ false
  no_overflow =
      none-any (overflows f.ids) s.shared.db.jobs
        (omega (arith, v.bad, named-overflows kinds start f s.shared.db.jobs picked.0.0 found))

  rest-Ours : All (Ours rest after_db) rest
  rest-Ours = All-intro _ rest (λ g m.
      let (k, p, l) = All-mem _ rest picked.1 m in
      (
        k,
        p,
        λ h. omega (
          arith,
          looser,
          l (omega (arith, h, named-update kinds g.ids f.ids f.started f.worker s.shared.db.jobs)),
        ),
      ))

  abbrev landed : List (Job P) → Shared P
  landed js = record { db = after_db; flights = rest; returned = js ++ s.shared.returned }

  abbrev claimed : List (Job P)
  claimed = batch f.ids f.worker f.started s.shared.db

  -- The batch's jobs were not busy, and are now.
  commit-busy :
      (i : ℕ)
      → count_if (λ j. j.id == i) claimed + marked_times i s.marking
        ≤ count_if (is_busy kinds i) after_db.jobs
  commit-busy i =
      let returned = returned_with_id f.ids f.started f.worker i s.shared.db.jobs in
      let busy = busy-commit kinds f f.worker i s.shared.db.jobs picked.0.0 found in
      elim (Bool-cases (contains f.ids i)) [
        | inl c ↦ ground (
          arith,
          c,
          returned,
          busy,
          v.busy i,
          not_busy kinds f f.worker i s.shared.db.jobs found c,
        )
        | inr c ↦ ground (arith, c, returned, busy, v.busy i)
      ]

  unbusy : (i : ℕ) → marked_times i s.marking ≤ count_if (is_busy kinds i) after_db.jobs
  unbusy i = omega (arith, commit-busy i)

  finished-same :
      count_if (is_finished kinds) after_db.jobs ≡ count_if (is_finished kinds) s.shared.db.jobs
  finished-same = finished-commit kinds f f.worker s.shared.db.jobs found

  abbrev Next : Crew P → Type 0
  Next t =
      Crewed order kinds size start completing jobs workers already t
      × (to_go order kinds size start completing t < to_go order kinds size start completing s)

  module _ (js rows : List (Job P)) (sound : Sound (landed js))
      (len : length rows ≡ count_if (λ r. contains f.ids r.id) s.shared.db.jobs) where
    fewer_open :
        count_if (is_open kinds) after_db.jobs + length rows
        ≡ count_if (is_open kinds) s.shared.db.jobs
    fewer_open =
        omega (arith, len, opened, open-update kinds f.ids f.started f.worker s.shared.db.jobs)

    still_good : count_if (is_bad kinds start) after_db.jobs ≡ 0
    still_good =
        omega (arith, v.bad, bad-update kinds start f.ids f.started f.worker s.shared.db.jobs)

  gone_on :
      (js rows : List (Job P))
      → Sound (landed js)
      → length rows ≡ count_if (λ r. contains f.ids r.id) s.shared.db.jobs
      → ((i : ℕ)
          → count_if (λ j. j.id == i) rows + marked_times i s.marking
            ≤ count_if (is_busy kinds i) after_db.jobs)
      → Next (after_rows completing f.worker rows (landed js) s)
  gone_on js [] sound len new = (
    record {
      sound = sound;
      bad = still_good js [] sound len;
      all_workers = omega (arith, v.all_workers, fewer);
      all_jobs = omega (arith, v.all_jobs, fewer_open js [] sound len);
      ours = rest-Ours;
      left = λ h. omega (arith, looser, picked.0.2 (omega (arith, len)));
      busy = unbusy;
      finished = λ c. omega (arith, v.finished c, finished-same, fewer_open js [] sound len);
    },
    ground (arith, fewer, fewer_open js [] sound len),
  )
  gone_on js (r ∷ rows) sound len new = elim (Bool-cases completing) [
    | inr c ↦ rw c (
      record {
        sound = sound;
        bad = still_good js (r ∷ rows) sound len;
        all_workers = omega (arith, v.all_workers, fewer);
        all_jobs = omega (arith, v.all_jobs, fewer_open js (r ∷ rows) sound len);
        ours = rest-Ours;
        left = λ h. omega (arith, looser, v.left h);
        busy = unbusy;
        finished = λ h. absurd (cc);
      },
      omega (arith, fewer, fewer_open js (r ∷ rows) sound len),
    )
    | inl c ↦ rw c (
      record {
        sound = sound;
        bad = still_good js (r ∷ rows) sound len;
        all_workers = omega (arith, v.all_workers, fewer);
        all_jobs = omega (arith, v.all_jobs, fewer_open js (r ∷ rows) sound len);
        ours = rest-Ours;
        left = λ h. omega (arith, looser, v.left h);
        busy = new;
        finished =
            λ h. omega (arith, v.finished c, finished-same, fewer_open js (r ∷ rows) sound len);
      },
      omega (arith, fewer, fewer_open js (r ∷ rows) sound len),
    )
  ]

  -- The claim's answer, in full.
  answered : update_claimed f.ids f.worker f.started s.shared.db ≡ ok (claimed, after_db)
  answered = update_claimed-total f.ids f.worker f.started s.shared.db no_overflow

  landed-Sound : Sound (landed claimed)
  unfolding move
  landed-Sound = rw (e, answered) at (move-Sound s.shared v.sound order (commit_flight i))

  pub answer-Crewed :
      (t : Crew P) × (crew_turn order kinds size start completing (answers i) s ≡ some t) × Next t
  unfolding crew_turn
  answer-Crewed = (
    after_rows completing f.worker claimed (landed claimed) s,
    rw (e, answered) refl,
    gone_on claimed claimed landed-Sound (length-batch f.ids f.worker f.started s.shared.db)
        commit-busy,
  )
