-- ===== src/Claimers/Sound.antt =====
-- What holds in every state that the sessions can reach.
use skip_locked.Prelude.{
  ℕ, map, mem_of-select, ◌≤◌, ◌≡◌, refl, List, [], true, String, some, arith, Memᴰ, All, All-mem,
  All-intro, contains, inl, inr, Bool-cases, Option-cases, any,
}
use skip_locked.Postgres.OrderBy.{OrderBy}
use skip_locked.Jobs.{Row, Db}
use skip_locked.Jobs.Find.{id-lt_of_mem}
use skip_locked.Claim.{limit, claimable, claimed_row, update_claimed, overflows, lock_rows}
use skip_locked.Claim.Picked.{mem_of-contains}
use skip_locked.Claim.Batch.{Below-Unique, locked-free, mem_of-lock_rows, row_id}
use skip_locked.Queue.Lawful.{Inv}
use skip_locked.Queue.Steps.{claimed_db-Inv, apply-Inv}
use skip_locked.Claimers.{
  Flight, is_held, Shared, Move, lock, commit_flight, abort, pick, held_now, move, commit_pick,
}
use skip_locked.Claimers.Counts.{
  held_of_mem, in_flight_of_mem, held_some, pick-All, in_flight, contains_some, held_none,
  in_flight-pick, locked_with_id, ready-le,
}
use skip_locked.Claimers.Reserved.{
  Reserved, held_rows, reserved-claimable, update-Reserved, apply-Reserved,
}
use skip_locked.Claimers.Commit.{plain-Replay}
use skip_locked.Claimers.Windows.{
  fair_flight, fair_flight-known, fair_flight-once, fair_flight-found,
}
use skip_locked.Claimers.Windows.Replayed.{fair-Replay}
use skip_locked.Postgres.{Result-cases, ◌>>=◌}
use skip_locked.Postgres.Json.{Json}
use skip_locked.Prelude.Int.{ℤ}
use skip_locked.Claim.Fair.{Candidate, times_four}
use skip_locked.Claimers.Steps.{
  Step, claiming, claiming_fairly, statement, Reach, here, next, lock_fairly,
}

module _ {P : Type 0} where
  pub record Sound (s : Shared P) : Type 0 where
    pub queue : Inv s.db
    pub single : (i : ℕ) → in_flight i s.flights ≤ 1
    pub reserved : All (Reserved s.db) s.flights

  module _ (s : Shared P) (v : Sound s) (order : OrderBy (Row P) (λ r. r.run_at)) where
    -- The flight of a plain claim.
    lock-Reserved :
        (worker : String) (kinds : List String) (k now : ℕ)
        → Reserved s.db (record {
          worker = worker;
          kinds = kinds;
          started = now;
          ids = map (λ r. r.id) (lock_rows order (held_now s.flights) kinds k now s.db);
          spared = [];
        })
    lock-Reserved worker kinds k now =
        let ids = map (λ r. r.id) (lock_rows order (held_now s.flights) kinds k now s.db) in
        let f : Flight = record {
          worker = worker;
          kinds = kinds;
          started = now;
          ids = ids;
          spared = [];
        } in
        let found : All (λ r. claimable now kinds r ≡ true) (held_rows f s.db) =
          All-intro _ (held_rows f s.db) (λ r m.
            let (mj, h) = mem_of-select (λ q. is_held f q.id) s.db.jobs m in
            ground (
              arith,
              (locked-free order (held_now s.flights) kinds k now s.db.next_id s.db v.queue.fresh mj
                  (ground (arith, h))).1,
            )) in
        record {
          known = λ i c.
              let (q, m, e) =
                mem_of-contains row_id (lock_rows order (held_now s.flights) kinds k now s.db) i
                  (ground (arith, c)) in
              omega (
                arith,
                e,
                id-lt_of_mem s.db.next_id s.db.jobs v.queue.fresh
                    (mem_of-lock_rows order (held_now s.flights) kinds k now s.db m).0,
              );
          rows = held_rows f s.db;
          same = refl;
          found = found;
          replay = plain-Replay order f (held_rows f s.db) refl found;
        }

    lock-Sound :
        (worker : String) (kinds : List String) (k now : ℕ)
        → Sound (move order (lock worker kinds k now) s)
    unfolding move
    lock-Sound worker kinds k now = record {
      queue = v.queue;
      single = λ i. elim (Bool-cases (held_now s.flights i)) [
        | inl h ↦
            ground (arith, locked_with_id order (held_now s.flights) kinds k now i s.db, v.single i)
        | inr h ↦ ground (
          arith,
          locked_with_id order (held_now s.flights) kinds k now i s.db,
          held_none i s.flights h,
          ready-le i s.db.jobs,
          Below-Unique s.db.next_id s.db.jobs v.queue.fresh i,
        )
      ];
      reserved = (lock-Reserved worker kinds k now, v.reserved);
    }

    open_window-Sound :
        (json : Json P) (window : OrderBy Candidate (λ c. c.run_at)) (kinds : List String)
        (size tenant_cap : ℤ) (worker : String) (now : ℕ)
        → Sound (lock_fairly json order window kinds size tenant_cap worker now s)
    unfolding lock_fairly
    open_window-Sound json window kinds size tenant_cap worker now =
        elim (Result-cases (times_four size >>= limit)) [
          | inr (x, q) ↦ rw q v
          | inl (k, q) ↦
              let held = held_now s.flights in
              let n = s.db.next_id in
              let b = v.queue.fresh in
              rw q (record {
                queue = v.queue;
                single = λ i.
                    let once =
                      fair_flight-once json order window held kinds k tenant_cap worker now n s.db b
                        i in
                    elim (Bool-cases (held_now s.flights i)) [
                      | inl h ↦ ground (arith, h, once, v.single i)
                      | inr h ↦ ground (arith, h, once, held_none i s.flights h)
                    ];
                reserved = (
                  record {
                    known =
                        fair_flight-known json order window held kinds k tenant_cap worker now n
                          s.db b;
                    rows =
                        held_rows
                          (fair_flight json order window held kinds k tenant_cap worker now n s.db
                            b)
                          s.db;
                    same = refl;
                    found =
                        fair_flight-found json order window held kinds k tenant_cap worker now n
                          s.db b;
                    replay =
                        fair-Replay json order window held kinds k tenant_cap worker now n s.db b
                          size q;
                  },
                  v.reserved,
                );
              })
        ]

    module _ (n : ℕ) (f : Flight) (rest : List Flight) (e : pick n s.flights ≡ some (f, rest)) where
      rest-Sound : Sound (record s { flights = rest })
      rest-Sound = record {
        queue = v.queue;
        single = λ i. omega (arith, in_flight-pick i n s.flights f rest e, v.single i);
        reserved = (pick-All (Reserved s.db) n s.flights f rest e v.reserved).1;
      }

      pub picked-Reserved : Reserved s.db f
      picked-Reserved = (pick-All (Reserved s.db) n s.flights f rest e v.reserved).0

      apart :
          {g : Flight} → Memᴰ g rest → (i : ℕ) → contains f.ids i ≡ true → is_held g i ≡ true → ⊥
      apart {g} m i cf cg = omega (
        arith,
        v.single i,
        in_flight-pick i n s.flights f rest e,
        in_flight_of_mem i rest m,
        contains_some i f.ids cf,
        held_some i g cg,
      )

      commit-Sound : Sound (commit_pick (some (f, rest)) s)
      unfolding update_claimed
      commit-Sound = elim (Bool-cases (any (overflows f.ids) s.db.jobs)) [
        | inl t ↦ rw t rest-Sound
        | inr t ↦ rw t (record {
          queue =
              claimed_db-Inv f.ids f.worker f.started f.kinds s.db
                (λ r m c. reserved-claimable f s.db picked-Reserved r m (ground (arith, c)))
                v.queue;
          single = rest-Sound.single;
          reserved = All-intro _ rest (λ g m.
              update-Reserved g s.db (All-mem (Reserved s.db) rest rest-Sound.reserved m)
                (λ r. contains f.ids r.id) (claimed_row f.started f.worker) (λ r. refl)
                (λ r mr t' c h. apart m r.id t' c));
        })
      ]

    pub move-Sound : (m : Move) → Sound (move order m s)
    unfolding move
    move-Sound (lock worker kinds k now) = lock-Sound worker kinds k now
    move-Sound (commit_flight n) = elim (Option-cases (pick n s.flights)) [
      | inl e ↦ rw e v
      | inr ((f, rest), e) ↦ rw e (commit-Sound n f rest e)
    ]
    move-Sound (abort n) = elim (Option-cases (pick n s.flights)) [
      | inl e ↦ rw e v
      | inr ((f, rest), e) ↦ rw e (rest-Sound n f rest e)
    ]

  pub Step-Sound : {s t : Shared P} → Step s t → Sound s → Sound t
  Step-Sound {s} (claiming order m) v = move-Sound s v order m
  Step-Sound {s} (claiming_fairly json order window kinds size tenant_cap worker now) v =
      open_window-Sound s v order json window kinds size tenant_cap worker now
  Step-Sound {s} (statement now op w) v = record {
    queue = apply-Inv op now s.db v.queue;
    single = v.single;
    reserved = All-intro _ s.flights (λ f m.
        apply-Reserved f s.db (All-mem (Reserved s.db) s.flights v.reserved m) (held_now s.flights)
          op now (λ i. held_of_mem i s.flights m) w v.queue);
  }

  -- In every state that the sessions reach, the table keeps its invariant, no row is locked twice, and the rows that a
  -- claim locked are as it found them.
  pub Reach-Sound : {db : Db P} {s : Shared P} → Inv db → Reach db s → Sound s
  Reach-Sound inv here = record { queue = inv; single = λ i. omega arith; reserved = tt }
  Reach-Sound inv (next r st) = Step-Sound st (Reach-Sound inv r)
