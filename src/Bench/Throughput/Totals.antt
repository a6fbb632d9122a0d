-- ===== src/Bench/Throughput/Totals.antt =====
-- What the throughput benchmark prints.
use skip_locked.Prelude.{
  ℕ, zero, suc, ◌≤◌, ◌≡◌, refl, List, [], ◌∷◌, Bool, true, false, Option, some, none, String, arith,
  count_if, length, Bool-cases, Option-cases, inl, inr, ◌==◌, ==_iff, if◌then◌else◌,
}
use skip_locked.Prelude.Int.{pos}
use skip_locked.Postgres.{ok}
use skip_locked.Postgres.OrderBy.{OrderBy}
use skip_locked.Postgres.Json.{Json}
use skip_locked.Jobs.{Row, Db}
use skip_locked.Enqueue.{new_row}
use skip_locked.Bench.Loops.{bench_kinds, series_length, enqueue_sample, seed_bench}
use skip_locked.Bench.Turn.{quiet}
use skip_locked.Bench.Seeded.{seeded, seeded-Inv, series-open, series-bad, series-finished}
use skip_locked.Bench.Crew.{Crew, CrewTurn, crew_of, crew_turns}
use skip_locked.Bench.Crew.Marks.{is_finished}
use skip_locked.Bench.Crew.Ends.{ended-counted, crew_turns-ends}
use skip_locked.Bench.Throughput.{Config, both_totals, worker_names, run_workers, throughput}

length-worker_names : (prefix : String) (w n : ℕ) → length (worker_names prefix w n) ≡ n
length-worker_names prefix w zero = refl
length-worker_names prefix w (suc n) = omega (arith, length-worker_names prefix (suc w) n)

module _ {P : Type 0} (json : Json P) (by_run_at : OrderBy (Row P) (λ r. r.run_at)) (now : ℕ) where
  -- What the first part leaves, when no round trip fails.
  abbrev sampled : ℕ → Db P → Db P
  sampled zero db = db
  sampled (suc n) db = sampled n (record db {
    jobs = new_row db.next_id "bench" (json.object (("carrier_id", "0") ∷ [])) now ∷ db.jobs;
    next_id = suc db.next_id;
    notified = suc db.notified;
  })

  enqueue_sample-quiet :
      (n : ℕ) (db : Db P) → enqueue_sample json n (quiet db now) ≡ (ok tt, quiet (sampled n db) now)
  unfolding enqueue_sample
  enqueue_sample-quiet zero db = refl
  enqueue_sample-quiet (suc n) db = enqueue_sample-quiet n _

  seed_bench-quiet :
      (n : ℕ) (db : Db P)
      → seed_bench json n (quiet db now) ≡ (ok tt, quiet (seeded json now n db) now)
  unfolding seed_bench
  seed_bench-quiet n db = refl

  module _ (c : Config) (n k : ℕ) (jobs : c.jobs ≡ pos n) (size : c.size ≡ pos k) (one : 1 ≤ k)
      (some_worker : 1 ≤ c.workers) where
    abbrev names : String → List String
    names prefix = worker_names prefix 0 c.workers

    enough : (prefix : String) → 1 ≤ length (names prefix)
    enough prefix = omega (arith, some_worker, length-worker_names prefix 0 c.workers)

    -- A run of a part in which each worker has left its loop.
    counted :
        (completing : Bool) (prefix : String) (turns : List CrewTurn) (db : Db P) (s : Crew P)
        → crew_turns by_run_at bench_kinds k now completing turns
            (crew_of (names prefix) (seeded json now n db))
          ≡ some s
        → s.ended ≡ c.workers
        → (s.counter ≡ n)
          × (completing ≡ true → count_if (is_finished bench_kinds) s.shared.db.jobs ≡ n)
    counted completing prefix turns db s e all =
        let (total, done) =
          ended-counted by_run_at bench_kinds k now completing one (names prefix)
            (seeded json now n db) (seeded-Inv json now n db) (series-bad json now n) turns s e
            (enough prefix) (omega (arith, all, length-worker_names prefix 0 c.workers)) in
        (
          omega (arith, total, series-open json now n),
          λ t. omega (arith, done t, series-open json now n, series-finished json now n),
        )

    -- One part on a seeded table: what it prints is the backlog, which is done after the third part.
    part :
        (completing : Bool) (prefix : String) (turns : List CrewTurn) (db : Db P)
        → (o : Option ℕ) × (db' : Db P) × (run_workers json by_run_at completing prefix c turns
              (quiet (seeded json now n db) now)
            ≡ (ok o, quiet db' now))
          × ((a : ℕ)
              → o ≡ some a
              → (a ≡ n) × (completing ≡ true → count_if (is_finished bench_kinds) db'.jobs ≡ n))
    unfolding run_workers
    part completing prefix turns db =
        elim (Option-cases (
          crew_turns by_run_at bench_kinds k now completing turns
            (crew_of (worker_names prefix 0 c.workers) (seeded json now n db)))) [
              | inl e ↦ (none, seeded json now n db, rw (size, e) refl, λ a h. ground arith)
              | inr (s, e) ↦ (
                (if s.ended == c.workers then some s.counter else none),
                s.shared.db,
                rw (size, e) refl,
                λ a h. elim (Bool-cases (s.ended == c.workers)) [
                  | inr f ↦ ground (arith, h, f)
                  | inl t ↦
                      let (total, done) =
                        counted completing prefix turns db s e ((==_iff s.ended c.workers).0 t) in
                      (ground (arith, h, t, total), done)
                ],
              )
            ]

    -- Some turns end the part.
    part_ends :
        (completing : Bool) (prefix : String) (db : Db P)
        → (turns : List CrewTurn) × (db' : Db P) × (run_workers json by_run_at completing prefix c
              turns
              (quiet (seeded json now n db) now)
            ≡ (ok (some n), quiet db' now))
    unfolding run_workers
    part_ends completing prefix db =
        let start = crew_of (names prefix) (seeded json now n db) in
        let (turns, s, e, all) =
          crew_turns-ends by_run_at bench_kinds k now completing one (names prefix)
            (seeded json now n db) (seeded-Inv json now n db) (series-bad json now n) [] start
            refl in
        let all' : s.ended ≡ c.workers =
          omega (arith, all, length-worker_names prefix 0 c.workers) in
        let (total, done) = counted completing prefix turns db s e all' in
        let t : (s.ended == c.workers) ≡ true = (==_iff s.ended c.workers).1 all' in
        (turns, s.shared.db, rw (size, e, t, total) refl)

    both_some :
        (o o' : Option ℕ) (a b : ℕ) → both_totals o o' ≡ some (a, b) → (o ≡ some a) × (o' ≡ some b)
    both_some none o' a b h = ground arith
    both_some (some x) none a b h = ground arith
    both_some (some x) (some y) a b h = (cc, cc)

    -- With a number of jobs that is not negative, a batch and a number of workers of at least 1, and no failed round
    -- trip: whatever turns the workers of both parts take, where the benchmark ends its two totals are the number of
    -- jobs, and so many jobs are done.
    pub throughput-totals :
        (claiming processing : List CrewTurn) (db : Db P) (a b : ℕ)
        → (throughput json by_run_at c claiming processing (quiet db now)).0 ≡ ok (some (a, b))
        → (a ≡ n)
          × (b ≡ n)
          × (count_if
                (is_finished bench_kinds)
                (throughput json by_run_at c claiming processing (quiet db now)).1.db.jobs
              ≡ n)
    unfolding throughput
    throughput-totals claiming processing db a b =
        let first = sampled (series_length c.sample) (record db { jobs = []; next_id = 1 }) in
        let (o, db1, run1, total1) = part false "claim-" claiming first in
        let (o', db2, run2, total2) = part true "proc-" processing db1 in
        rw
          (
            jobs,
            enqueue_sample-quiet (series_length c.sample) (record db { jobs = []; next_id = 1 }),
            run1,
            run2,
          )
          (λ h.
            let (p, q) = both_some o o' a b (cc) in
            let (first_total, _) = total1 a p in
            let (second_total, finished) = total2 b q in (first_total, second_total, finished refl))

    -- With such a configuration, and no failed round trip: there are turns with which the benchmark ends and prints the
    -- number of jobs twice.
    pub throughput-ends :
        (db : Db P)
        → (claiming processing : List CrewTurn) × ((throughput json by_run_at c claiming processing
              (quiet db now)).0
            ≡ ok (some (n, n)))
    unfolding throughput
    throughput-ends db =
        let first = sampled (series_length c.sample) (record db { jobs = []; next_id = 1 }) in
        let (claiming, db1, run1) = part_ends false "claim-" first in
        let (processing, db2, run2) = part_ends true "proc-" db1 in
        (
          claiming,
          processing,
          rw
              (
                jobs,
                enqueue_sample-quiet (series_length c.sample)
                    (record db { jobs = []; next_id = 1 }),
                run1,
                run2,
              )
              refl,
        )
