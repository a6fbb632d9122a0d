-- ===== src/Bench/Crew/Kept.antt =====
-- What each turn of the crew keeps, and the turn that begins a claim.
use skip_locked.Prelude.{
  ℕ, ◌+◌, ◌*◌, ◌≤◌, ◌<◌, ◌≡◌, refl, List, [], ◌∷◌, Bool, true, some, String, arith, contains,
  count_if, All, All-mem, All-intro, length, if◌then◌else◌,
}
use skip_locked.Postgres.OrderBy.{OrderBy}
use skip_locked.Jobs.{Row, Db}
use skip_locked.Claimers.{Flight, Shared, lock, move}
use skip_locked.Claimers.Sound.{Sound, move-Sound}
use skip_locked.Bench.Crew.{Crew, begins, take_at, crew_turn}
use skip_locked.Bench.Crew.Rows.{length-take_at, is_open, is_bad, is_loose, loose-lock, loose-empty}
use skip_locked.Bench.Crew.Marks.{marked_times, lefts, sizes, is_busy, is_finished}

module _ {P : Type 0} (order : OrderBy (Row P) (λ r. r.run_at)) (kinds : List String)
    (size start : ℕ) (completing : Bool) where
  abbrev pub open_in : Db P → ℕ
  open_in db = count_if (is_open kinds) db.jobs

  abbrev pub finished_in : Db P → ℕ
  finished_in db = count_if (is_finished kinds) db.jobs

  abbrev pub loose_in : List Flight → Db P → ℕ
  loose_in fs db = count_if (is_loose kinds fs) db.jobs

  abbrev pub rows_of : Flight → Db P → ℕ
  rows_of f db = count_if (λ r. contains f.ids r.id) db.jobs

  -- A plain claim for the crew's kinds, which leaves no job loose if it has no row.
  abbrev pub OfCrew : List Flight → Db P → Flight → Type 0
  OfCrew fs db f = (f.kinds ≡ kinds) × (f.spared ≡ []) × (rows_of f db ≡ 0 → loose_in fs db ≡ 0)

  -- For a backlog of `jobs`, a number of workers, and the jobs that were done before.
  pub record Crewed (jobs workers already : ℕ) (s : Crew P) : Type 0 where
    pub sound : Sound s.shared
    pub bad : count_if (is_bad kinds start) s.shared.db.jobs ≡ 0
    pub all_workers :
        length s.waiting + length s.shared.flights + length s.marking + s.ended ≡ workers
    pub all_jobs : s.counter + sizes s.marking + open_in s.shared.db ≡ jobs
    pub ours : All (OfCrew s.shared.flights s.shared.db) s.shared.flights
    pub left : 1 ≤ s.ended → loose_in s.shared.flights s.shared.db ≡ 0
    pub busy : (i : ℕ) → marked_times i s.marking ≤ count_if (is_busy kinds i) s.shared.db.jobs
    pub finished :
        completing ≡ true
        → finished_in s.shared.db + lefts s.marking + open_in s.shared.db ≡ already + jobs

  -- Without claims under way every open job is loose.
  pub loose_all :
      (rs : List (Row P)) → count_if (is_loose kinds []) rs ≡ count_if (is_open kinds) rs
  loose_all [] = refl
  loose_all (r ∷ rs) = ground (arith, loose_all rs)

  -- The turns that can still happen.
  abbrev pub to_go : Crew P → ℕ
  to_go s =
      2 * length s.waiting
      + length s.shared.flights
      + 3 * length s.marking
      + lefts s.marking
      + 2 * open_in s.shared.db
      + (if completing then 2 * open_in s.shared.db else 0)

  module _ (one : 1 ≤ size) (jobs workers already : ℕ) (s : Crew P)
      (v : Crewed jobs workers already s) where
    abbrev locked : String → ℕ → Shared P
    locked w d = move order (lock w kinds size (start + d)) s.shared

    begun :
        (i d : ℕ) (w : String) (ws : List String)
        → take_at i s.waiting ≡ some (w, ws)
        → let t : Crew P = record s { shared = locked w d; waiting = ws } in
          Crewed jobs workers already t × (to_go t < to_go s)
    unfolding move
    begun i d w ws e =
        let fewer = length-take_at i s.waiting ws w e in
        (
          record {
            sound = move-Sound s.shared v.sound order (lock w kinds size (start + d));
            bad = v.bad;
            all_workers = omega (arith, v.all_workers, fewer);
            all_jobs = v.all_jobs;
            ours = (
              (
                refl,
                refl,
                λ h. omega (
                  arith,
                  loose-lock kinds s.shared.flights _ s.shared.db.jobs,
                  loose-empty kinds start order s.shared.flights size d s.shared.db.next_id
                      s.shared.db one v.sound.queue.fresh v.bad h,
                ),
              ),
              All-intro _ s.shared.flights (λ g m.
                  let (k, p, l) = All-mem _ s.shared.flights v.ours m in
                  (
                    k,
                    p,
                    λ h. omega (arith, l h, loose-lock kinds s.shared.flights _ s.shared.db.jobs),
                  )),
            );
            left =
                λ h. omega (arith, v.left h, loose-lock kinds s.shared.flights _ s.shared.db.jobs);
            busy = v.busy;
            finished = v.finished;
          },
          omega (arith, fewer),
        )

    pub begin-Crewed :
        (i d : ℕ) (w : String) (ws : List String)
        → take_at i s.waiting ≡ some (w, ws)
        → (t : Crew P) × (crew_turn order kinds size start completing (begins i d) s ≡ some t)
          × (Crewed jobs workers already t × (to_go t < to_go s))
    unfolding crew_turn
    begin-Crewed i d w ws e =
        let (c, less) = begun i d w ws e in
        (record s { shared = locked w d; waiting = ws }, rw e refl, (c, less))
