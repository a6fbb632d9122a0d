-- ===== src/Claimers/Windows.antt =====
-- A fair claim in flight: it holds its whole window, and commits as a fair claim that runs then.
pub mod Replayed
use mathlib.Core.List.Permᴰ as Perm
use skip_locked.Prelude.{
  ℕ, suc, ◌+◌, ◌≤◌, ◌<◌, ◌≡◌, refl, sym, ap, ◌∙◌, subst, List, [], ◌∷◌, ◌++◌, Bool, true, false,
  String, contains, map, not, select, count_if, ◌==◌, ◌||◌, ◌&&◌, arith, Bool-cases, inl, inr, Memᴰ,
  Permᴰ, All, All-intro, All-mem, mem_of-map, mem_of-select, mem-select, length, length-perm,
  length-select, take_all, if◌then◌else◌, count_if-map, count_if-perm, count_if-append,
  count_if-true, min,
}
use skip_locked.Prelude.Int.{ℤ}
use skip_locked.Postgres.{ok, Result-cases, ◌>>=◌}
use skip_locked.Postgres.OrderBy.{OrderBy, mem_of-sort}
use skip_locked.Postgres.Pinned.{pinned, pinned-sort}
use skip_locked.Postgres.Json.{Json}
use skip_locked.Jobs.{Row, Db}
use skip_locked.Jobs.Find.{Below, id-lt_of_mem}
use skip_locked.Claim.{free, claimable, lock_rows, limit, update_claimed}
use skip_locked.Claim.Picked.{Unique, with_key, with_key_of_mem, perm-with_key, mem_of-contains}
use skip_locked.Claim.Batch.{
  Below-Unique, row_id, rest_rows, lock_rows-perm, mem_of-lock_rows, locked-free, length-lock_rows,
  locked_ids,
}
use skip_locked.Claim.Fair.{Candidate, candidate, fair_ids, fair_claim_sql, times_four}
use skip_locked.Claim.Fair.Winners.{candidate_id, winners, others, fair_ids-winners, winners-perm}
use skip_locked.Claim.Fair.Rank.{mem_of-kept}
use skip_locked.Queue.{Op, claim_fairly, after, apply}
use skip_locked.Claimers.{Flight, is_held}
use skip_locked.Claimers.Counts.{
  contains_none, contains_some, with_id, ready_with_id, locked_with_id, ready-le,
}
use skip_locked.Claimers.Reserved.{held_rows, Replay, as_found}
use skip_locked.Claimers.Steps.{answer, answer_of}

contains-select_le :
    (p : ℕ → Bool) (i : ℕ) (is : List ℕ) → contains (select p is) i ≡ true → contains is i ≡ true
contains-select_le p i [] h = h
contains-select_le p i (j ∷ is) h = ground (arith, contains-select_le p i is)

contains-select :
    (p : ℕ → Bool) (i : ℕ) (is : List ℕ)
    → contains is i ≡ true
    → p i ≡ true
    → contains (select p is) i ≡ true
contains-select p i [] h k = h
contains-select p i (j ∷ is) h k = ground (arith, contains-select p i is)

count-spared :
    (i : ℕ) (ids is : List ℕ)
    → count_if (λ a. a == i) (select (λ j. not (contains ids j)) is)
      ≤ (if contains ids i then 0 else count_if (λ a. a == i) is)
count-spared i ids [] = ground arith
count-spared i ids (j ∷ is) = ground (arith, count-spared i ids is)

module _ {P : Type 0} (json : Json P) (order : OrderBy (Row P) (λ r. r.run_at))
    (window : OrderBy Candidate (λ c. c.run_at)) (held : ℕ → Bool) (kinds : List String) (k : ℕ)
    (tenant_cap : ℤ) (worker : String) (now n : ℕ) (db : Db P) (b : Below n db.jobs) where
  abbrev pub ids : List ℕ
  ids = fair_ids json order window held kinds k tenant_cap now db

  abbrev pub locked : List (Row P)
  locked = lock_rows order held kinds k now db

  abbrev pub fair_flight : Flight
  fair_flight = record {
    worker = worker;
    kinds = kinds;
    started = now;
    ids = ids;
    spared = select (λ i. not (contains ids i)) (map (λ r. r.id) locked);
  }

  -- An id that is within the cap is that of a row of the window.
  ids-locked : (i : ℕ) → contains ids i ≡ true → (q : Row P) × Memᴰ q locked × (q.id ≡ i)
  unfolding winners
  ids-locked i h =
      let h' : contains
            (map candidate_id (winners json order window held kinds k tenant_cap now db)) i
          ≡ true =
        rw (fair_ids-winners json order window held kinds k tenant_cap now db) at h in
      let (c, mc, ec) =
        mem_of-contains candidate_id (winners json order window held kinds k tenant_cap now db) i
          h' in
      let (q, mq, eq) =
        mem_of-map (candidate json) locked
          (mem_of-sort window _ (mem_of-kept tenant_cap [] _ mc)) in
      (q, mq, sym (ap candidate_id eq) ∙ ec)

  -- The flight holds its window.
  pub is_held-locked : (i : ℕ) → is_held fair_flight i ≡ contains (map row_id locked) i
  is_held-locked i = elim (Bool-cases (contains ids i)) [
    | inl h ↦
        let (q, m, e) = ids-locked i h in ground (arith, h, e, with_key_of_mem row_id locked m)
    | inr h ↦ elim (Bool-cases (contains (map row_id locked) i)) [
      | inl c ↦
          ground (arith, h, c, contains-select (λ j. not (contains ids j)) i (map row_id locked) c)
      | inr c ↦
          ground (arith, h, c, contains-select_le (λ j. not (contains ids j)) i (map row_id locked))
    ]
  ]

  pub fair_flight-known : (i : ℕ) → is_held fair_flight i ≡ true → i < n
  fair_flight-known i h =
      let (q, m, e) = mem_of-contains row_id locked i (sym (is_held-locked i) ∙ h) in
      omega (arith, e, id-lt_of_mem n db.jobs b (mem_of-lock_rows order held kinds k now db m).0)

  count-ids : (i : ℕ) → count_if (λ a. a == i) ids ≤ 1
  count-ids i =
      let won = winners json order window held kinds k tenant_cap now db in
      let lost = others json order window held kinds k tenant_cap now db in
      omega (
        arith,
        ap (count_if (λ a. a == i))
            (fair_ids-winners json order window held kinds k tenant_cap now db),
        count_if-map (λ a. a == i) candidate_id won,
        count_if-append (λ c. candidate_id c == i) won lost,
        count_if-perm (λ c. candidate_id c == i)
            (winners-perm json order window held kinds k tenant_cap now db),
        count_if-map (λ c. candidate_id c == i) (candidate json) db.jobs,
        Below-Unique n db.jobs b i,
      )

  -- No row is locked twice, nor one that another transaction holds.
  pub fair_flight-once :
      (i : ℕ)
      → count_if (λ a. a == i) fair_flight.ids + count_if (λ a. a == i) fair_flight.spared
        ≤ (if held i then 0 else 1)
  fair_flight-once i = elim (Bool-cases (contains ids i)) [
    | inl h ↦
        let (q, m, e) = ids-locked i h in
        ground (
          arith,
          h,
          e,
          (mem_of-lock_rows order held kinds k now db m).1,
          count-ids i,
          count-spared i ids (map row_id locked),
        )
    | inr h ↦ ground (
      arith,
      h,
      contains_none i ids h,
      count-spared i ids (map row_id locked),
      locked_with_id order held kinds k now i db,
      ready-le i db.jobs,
      Below-Unique n db.jobs b i,
    )
  ]

  pub fair_flight-found : All (λ r. claimable now kinds r ≡ true) (held_rows fair_flight db)
  fair_flight-found = All-intro _ (held_rows fair_flight db) (λ r m.
      let (mj, h) = mem_of-select (λ q. is_held fair_flight q.id) db.jobs m in
      ground
        (arith, (locked-free order held kinds k now n db b mj (sym (is_held-locked r.id) ∙ h)).1))
