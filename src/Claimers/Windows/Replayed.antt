-- ===== src/Claimers/Windows/Replayed.antt =====
-- At its commit a fair claim's effect is that of a fair claim that may take exactly its window, with one of the
-- orders that Postgres may give to equal times.
use mathlib.Core.List.Permᴰ as Perm
use mathlib.Core.List.Memᴰ.{head, tail}
use skip_locked.Prelude.{
  ℕ, ◌≤◌, ◌≡◌, refl, sym, ap, ◌∙◌, subst, List, [], ◌∷◌, Bool, true, String, map, not, select, ◌==◌,
  arith, Bool-cases, inl, inr, Memᴰ, Permᴰ, All, length, length-perm, take_all, count_if-map,
  count_if-perm, count_if-append,
}
use skip_locked.Prelude.Int.{ℤ}
use skip_locked.Postgres.{ok, Result-cases, ◌>>=◌}
use skip_locked.Postgres.OrderBy.{OrderBy}
use skip_locked.Postgres.Pinned.{pinned, pinned-sort}
use skip_locked.Postgres.Json.{Json}
use skip_locked.Jobs.{Row, Db}
use skip_locked.Jobs.Find.{Below}
use skip_locked.Claim.{free, claimable, lock_rows, limit, update_claimed}
use skip_locked.Claim.Picked.{Unique, with_key, perm-with_key}
use skip_locked.Claim.Batch.{Below-Unique, row_id, rest_rows, lock_rows-perm, length-lock_rows}
use skip_locked.Claim.Fair.{Candidate, candidate, fair_ids, fair_claim_sql, times_four}
use skip_locked.Claim.Fair.Winners.{candidate_id}
use skip_locked.Queue.{claim_fairly, after, apply}
use skip_locked.Claimers.{Flight, is_held}
use skip_locked.Claimers.Reserved.{held_rows, Replay, as_found}
use skip_locked.Claimers.Steps.{answer, answer_of}
use skip_locked.Claimers.Windows.{fair_flight, is_held-locked, fair_flight-found}

module _ {P : Type 0} where
  select_same :
      (p q : Row P → Bool) (rs : List (Row P))
      → ((r : Row P) → Memᴰ r rs → p r ≡ q r)
      → select p rs ≡ select q rs
  select_same p q [] h = refl
  select_same p q (r ∷ rs) h = rw (h r (head refl), select_same p q rs (λ s m. h s (tail m))) refl

  -- A claim that skips all rows but those of the flight finds exactly these.
  free-held :
      (f : Flight) (db : Db P) (rows : List (Row P))
      → held_rows f db ≡ rows
      → All (λ r. claimable f.started f.kinds r ≡ true) rows
      → select (free (λ i. not (is_held f i)) f.started f.kinds) db.jobs ≡ rows
  free-held f db rows same found =
      select_same (free (λ i. not (is_held f i)) f.started f.kinds) (λ r. is_held f r.id) db.jobs
        (λ r m. elim (Bool-cases (is_held f r.id)) [
          | inl h ↦ ground (arith, h, as_found f db rows same found r m h)
          | inr h ↦ ground (arith, h)
        ])
      ∙ same

module _ {P : Type 0} (json : Json P) (order : OrderBy (Row P) (λ r. r.run_at))
    (window : OrderBy Candidate (λ c. c.run_at)) (held : ℕ → Bool) (kinds : List String) (k : ℕ)
    (tenant_cap : ℤ) (worker : String) (now n : ℕ) (db : Db P) (b : Below n db.jobs) where
  abbrev flight : Flight
  flight = fair_flight json order window held kinds k tenant_cap worker now n db b

  abbrev rows : List (Row P)
  rows = held_rows flight db

  abbrev taken : List (Row P)
  taken = lock_rows order held kinds k now db

  -- The rows that it holds are those that it locked.
  rows-perm : Permᴰ rows taken
  rows-perm =
      subst (λ rs. Permᴰ rs taken)
        (select_same (with_key row_id taken) (λ r. is_held flight r.id) db.jobs
          (λ r m.
            sym (is_held-locked json order window held kinds k tenant_cap worker now n db b r.id)))
        (perm-with_key row_id taken (rest_rows order held kinds k now db)
          (lock_rows-perm order held kinds k now db) (Below-Unique n db.jobs b))

  length-rows : length rows ≤ k
  length-rows = omega (arith, length-perm rows-perm, length-lock_rows order held kinds k now db)

  candidates-Unique : Unique candidate_id (map (candidate json) taken)
  candidates-Unique i = omega (
    arith,
    count_if-map (λ c. candidate_id c == i) (candidate json) taken,
    count_if-perm (λ r. r.id == i) (lock_rows-perm order held kinds k now db),
    count_if-append (λ r. r.id == i) taken (rest_rows order held kinds k now db),
    Below-Unique n db.jobs b i,
  )

  abbrev same_ties : OrderBy Candidate (λ c. c.run_at)
  same_ties = pinned candidate_id window (map candidate_id (map (candidate json) taken))

  module _ (later : Db P) (same : held_rows flight later ≡ rows) where
    retaken : lock_rows order (λ i. not (is_held flight i)) kinds k now later ≡ order.sort rows
    unfolding lock_rows
    retaken =
        rw
          (free-held flight later rows same
            (fair_flight-found json order window held kinds k tenant_cap worker now n db b))
          (take_all k (order.sort rows)
            (omega (arith, length-rows, length-perm (order.sort-perm rows))))

    same-ids :
        fair_ids json order same_ties (λ i. not (is_held flight i)) kinds k tenant_cap now later
        ≡ fair_ids json order window held kinds k tenant_cap now db
    unfolding fair_ids
    same-ids =
        rw
          (
            retaken,
            pinned-sort candidate_id window (map (candidate json) taken)
                (map (candidate json) (order.sort rows)) candidates-Unique
                (Perm.map (candidate json)
                  (Perm.trans (Perm.symm (order.sort-perm rows)) rows-perm)),
          )
          refl

  module _ (size : ℤ) (e : (times_four size >>= limit) ≡ ok k) where
    effect :
        (later : Db P)
        → held_rows flight later ≡ rows
        → fair_claim_sql json order same_ties
            (λ i. not (is_held flight i))
            kinds
            size
            tenant_cap
            worker
            now
            later
          ≡ update_claimed flight.ids worker now later
    unfolding fair_claim_sql
    effect later same = elim (Result-cases (times_four size)) [
      | inr (x, q) ↦ absurd (ground (arith, e, q))
      | inl (m, q) ↦ let e' : limit m ≡ ok k = rw q at e in rw (q, e', same-ids later same) refl
    ]

    pub fair-Replay : Replay flight rows
    unfolding apply answer
    fair-Replay = record {
      op =
          claim_fairly json order same_ties (λ i. not (is_held flight i)) kinds size tenant_cap
            worker;
      tables = λ later below same. ap (after later) (effect later same);
      claims = tt;
      answers = λ later below same. ap answer_of (effect later same);
    }
