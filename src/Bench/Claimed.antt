-- ===== src/Bench/Claimed.antt =====
-- What one claim takes from the free rows.
use skip_locked.Prelude.{
  ℕ, ◌+◌, ◌≤◌, ◌≡◌, refl, List, [], ◌∷◌, Bool, true, false, any, contains, count_if,
  count_if-take-le, count_if-perm, count_if-select, ◌&&◌, leb, arith, String, select, Memᴰ, length,
  ap, if◌then◌else◌, min,
}
use mathlib.Core.List.Memᴰ.{head, tail}
use skip_locked.Postgres.OrderBy.{OrderBy}
use skip_locked.Jobs.{Row, Db}
use skip_locked.Jobs.Update.{update_where}
use skip_locked.Jobs.Find.{Below}
use skip_locked.Claim.{free, claimed_row, lock_rows, overflows, max_int}
use skip_locked.Claim.Batch.{
  locked_ids, lock_rows-perm, rest_rows, row_id, Below-Unique, mem_of-lock_rows, length-lock_rows,
}
use skip_locked.Claim.Picked.{count_if-with_key}

module _ {A : Type 0} where
  pub none-any : (p : A → Bool) (xs : List A) → count_if p xs ≡ 0 → any p xs ≡ false
  none-any p [] h = refl
  none-any p (x ∷ xs) h = ground (arith, none-any p xs)

  and_comm :
      (p q : A → Bool) (xs : List A) → count_if (λ a. p a && q a) xs ≡ count_if (λ a. q a && p a) xs
  and_comm p q [] = refl
  and_comm p q (x ∷ xs) = ground (arith, and_comm p q xs)

module _ {P : Type 0} where
  -- A free row that has no room for an attempt.
  abbrev pub full : (ℕ → Bool) → ℕ → List String → Row P → Bool
  full held now kinds r = leb max_int r.attempts && free held now kinds r

  module _ (held : ℕ → Bool) (now : ℕ) (kinds : List String) (ids : List ℕ) (worker : String) where
    -- The rows that are claimed are free no longer, and the others are as they were.
    pub free-update :
        (rs : List (Row P))
        → count_if
              (free held now kinds)
              (update_where (λ r. contains ids r.id) (claimed_row now worker) rs)
            + count_if (λ r. free held now kinds r && contains ids r.id) rs
          ≡ count_if (free held now kinds) rs
    free-update [] = omega arith
    free-update (r ∷ rs) = ground (arith, free-update rs)

    pub full-update :
        (rs : List (Row P))
        → count_if
            (full held now kinds)
            (update_where (λ r. contains ids r.id) (claimed_row now worker) rs)
          ≤ count_if (full held now kinds) rs
    full-update [] = omega arith
    full-update (r ∷ rs) = ground (arith, full-update rs)

  module _ (by_run_at : OrderBy (Row P) (λ r. r.run_at)) (held : ℕ → Bool) (kinds : List String)
      (k now n : ℕ) (db : Db P) (b : Below n db.jobs) where
    locked-le :
        (q : Row P → Bool)
        → count_if q (lock_rows by_run_at held kinds k now db)
          ≤ count_if (λ r. q r && free held now kinds r) db.jobs
    unfolding lock_rows
    locked-le q =
        let eligible = select (free held now kinds) db.jobs in
        omega (
          arith,
          count_if-take-le q k (by_run_at.sort eligible),
          count_if-perm q (by_run_at.sort-perm eligible),
          count_if-select q (free held now kinds) db.jobs,
        )

    -- A claim raises nothing if every free row has room for an attempt.
    pub claim-room :
        count_if (full held now kinds) db.jobs ≡ 0
        → any (overflows (locked_ids by_run_at held kinds k now db)) db.jobs ≡ false
    claim-room h = none-any (overflows (locked_ids by_run_at held kinds k now db)) db.jobs (
        omega (
          arith,
          h,
          locked-le (λ r. leb max_int r.attempts),
          count_if-with_key row_id (lock_rows by_run_at held kinds k now db)
              (rest_rows by_run_at held kinds k now db)
              (lock_rows-perm by_run_at held kinds k now db) (Below-Unique n db.jobs b)
              (λ r. leb max_int r.attempts),
          and_comm (λ r. leb max_int r.attempts)
              (λ r. contains (locked_ids by_run_at held kinds k now db) r.id) db.jobs,
        ))

    count_all :
        (xs : List (Row P))
        → ((r : Row P) → Memᴰ r xs → free held now kinds r ≡ true)
        → count_if (free held now kinds) xs ≡ length xs
    count_all [] h = refl
    count_all (x ∷ xs) h = omega (
      arith,
      ap (λ c. (if c then 1 else 0) + count_if (free held now kinds) xs) (h x (head refl)),
      count_all xs (λ r m. h r (tail m)),
    )

    -- Of the free rows, those with the claim's ids are as many as it locks.
    pub free-locked :
        count_if
          (λ r. free held now kinds r && contains (locked_ids by_run_at held kinds k now db) r.id)
          db.jobs
        ≡ min k (count_if (free held now kinds) db.jobs)
    free-locked = omega (
      arith,
      count_if-with_key row_id (lock_rows by_run_at held kinds k now db)
          (rest_rows by_run_at held kinds k now db) (lock_rows-perm by_run_at held kinds k now db)
          (Below-Unique n db.jobs b) (free held now kinds),
      count_all (lock_rows by_run_at held kinds k now db)
          (λ r m. (mem_of-lock_rows by_run_at held kinds k now db m).1),
      length-lock_rows by_run_at held kinds k now db,
    )
