-- ===== src/Claimers/Disjoint.antt =====
-- No job is claimed twice, however the claims interleave.
use skip_locked.Prelude.{
  ℕ, ◌+◌, ◌≤◌, ◌≡◌, List, [], ◌∷◌, some, contains, map, count_if, count_if-append, ◌==◌, arith,
  Option-cases, Bool-cases, inl, inr, any,
}
use skip_locked.Postgres.OrderBy.{OrderBy}
use skip_locked.Jobs.{Row, Db, job_of}
use skip_locked.Jobs.Update.{returning}
use skip_locked.Claim.{update_claimed, overflows, claimed_row}
use skip_locked.Claimers.{
  Flight, Shared, Move, lock, commit_flight, abort, pick, held_now, move, moves, commit_pick,
}
use skip_locked.Claimers.Counts.{
  in_flight, contains_some, held_none, in_flight-pick, with_id, ready_with_id, locked_with_id,
  ready-update, with_id-update, ready-le, returned_with_id,
}

module _ {P : Type 0} where
  abbrev pub returned_times : ℕ → Shared P → ℕ
  returned_times i s = count_if (λ j. j.id == i) s.returned

  -- An id has one row; it was returned or is locked by one claim; and it is not ready once it was returned.
  pub record Once (i : ℕ) (s : Shared P) : Type 0 where
    pub one_row : with_id i s.db.jobs ≤ 1
    pub one_claim : returned_times i s + in_flight i s.flights ≤ 1
    pub not_ready : returned_times i s + ready_with_id i s.db.jobs ≤ 1

  update-Once :
      (i : ℕ) (f : Flight) (rest : List Flight) (s : Shared P)
      → in_flight i s.flights
        ≡ count_if (λ a. a == i) f.ids + count_if (λ a. a == i) f.spared + in_flight i rest
      → Once i s
      → Once i (commit_pick (some (f, rest)) s)
  unfolding update_claimed
  update-Once i f rest s e o = elim (Bool-cases (any (overflows f.ids) s.db.jobs)) [
    | inl t ↦ rw t (record {
      one_row = o.one_row;
      one_claim = omega (arith, e, o.one_claim);
      not_ready = o.not_ready;
    })
    | inr t ↦
        let a =
          count_if-append (λ j. j.id == i)
            (map job_of
              (returning (λ r. contains f.ids r.id) (claimed_row f.started f.worker) s.db.jobs))
            s.returned in
        let b = returned_with_id f.ids f.started f.worker i s.db.jobs in
        let c = ready-update f.ids f.started f.worker i s.db.jobs in
        let d = with_id-update f.ids f.started f.worker i s.db.jobs in
        rw t (elim (Bool-cases (contains f.ids i)) [
          | inl h ↦ record {
            one_row = omega (arith, d, o.one_row);
            one_claim = ground (arith, a, b, e, contains_some i f.ids h, o.one_row, o.one_claim);
            not_ready =
                ground
                  (arith, a, b, c, e, contains_some i f.ids h, o.one_row, o.one_claim, o.not_ready);
          }
          | inr h ↦ record {
            one_row = omega (arith, d, o.one_row);
            one_claim = ground (arith, a, b, e, o.one_claim);
            not_ready = ground (arith, a, b, c, o.not_ready);
          }
        ])
  ]

  module _ (by_run_at : OrderBy (Row P) (λ r. r.run_at)) where
    move-Once : (i : ℕ) (m : Move) (s : Shared P) → Once i s → Once i (move by_run_at m s)
    unfolding move
    move-Once i (lock worker kinds k now) s o =
        let c = locked_with_id by_run_at (held_now s.flights) kinds k now i s.db in
        record {
          one_row = o.one_row;
          one_claim = elim (Bool-cases (held_now s.flights i)) [
            | inl h ↦ ground (arith, c, o.one_claim)
            | inr h ↦ ground (arith, c, held_none i s.flights h, o.not_ready)
          ];
          not_ready = o.not_ready;
        }
    move-Once i (commit_flight n) s o = elim (Option-cases (pick n s.flights)) [
      | inl e ↦ rw e o
      | inr ((f, rest), e) ↦ rw e (update-Once i f rest s (in_flight-pick i n s.flights f rest e) o)
    ]
    move-Once i (abort n) s o = elim (Option-cases (pick n s.flights)) [
      | inl e ↦ rw e o
      | inr ((f, rest), e) ↦ rw e (record {
        one_row = o.one_row;
        one_claim = omega (arith, in_flight-pick i n s.flights f rest e, o.one_claim);
        not_ready = o.not_ready;
      })
    ]

    moves-Once : (i : ℕ) (ms : List Move) (s : Shared P) → Once i s → Once i (moves by_run_at ms s)
    moves-Once i [] s o = o
    moves-Once i (m ∷ ms) s o = moves-Once i ms (move by_run_at m s) (move-Once i m s o)

    -- However any number of claims interleave, lose their connections and repeat: while jobs are only claimed, each is
    -- returned to one worker at most, and never while another claim holds it.
    pub moves-disjoint :
        (ms : List Move) (db : Db P) (i : ℕ)
        → with_id i db.jobs ≤ 1
        → let s = moves by_run_at ms (record { db = db; flights = []; returned = [] }) in
          returned_times i s + in_flight i s.flights ≤ 1
    moves-disjoint ms db i u =
        (moves-Once i ms (record { db = db; flights = []; returned = [] })
          (record {
            one_row = u;
            one_claim = omega arith;
            not_ready = omega (arith, ready-le i db.jobs, u);
          })).one_claim
