-- ===== src/Claimers/Counts.antt =====
-- How often an id stands in a batch, in the locks and in the ready rows.
use mathlib.Core.List.Memᴰ.{head, tail}
use skip_locked.Prelude.{
  Memᴰ, All, subst, Bool-cases, Option, ℕ, zero, suc, ◌+◌, ◌≤◌, ◌≡◌, refl, List, [], ◌∷◌, Bool,
  true, false, some, contains, map, count_if, count_if-map, count_if-perm, count_if-take-le,
  count_if-select, if◌then◌else◌, ◌==◌, ◌&&◌, arith, String, Option-cases, inl, inr, take, select,
}
use skip_locked.Postgres.OrderBy.{OrderBy}
use skip_locked.Jobs.{Row, Db, is_ready, job_of}
use skip_locked.Jobs.Update.{update_where, returning}
use skip_locked.Claim.{free, claimed_row, lock_rows}
use skip_locked.Claimers.{Flight, pick, is_held, held_now}

abbrev pub in_flight : ℕ → List Flight → ℕ
in_flight i [] = 0
in_flight i (f ∷ fs) =
    count_if (λ a. a == i) f.ids + count_if (λ a. a == i) f.spared + in_flight i fs

pub contains_none : (i : ℕ) (ids : List ℕ) → contains ids i ≡ false → count_if (λ a. a == i) ids ≡ 0
contains_none i [] h = refl
contains_none i (a ∷ ids) h = ground (arith, contains_none i ids)

pub contains_some : (i : ℕ) (ids : List ℕ) → contains ids i ≡ true → 1 ≤ count_if (λ a. a == i) ids
contains_some i [] h = ground arith
contains_some i (a ∷ ids) h = ground (arith, contains_some i ids)

pub held_none : (i : ℕ) (fs : List Flight) → held_now fs i ≡ false → in_flight i fs ≡ 0
held_none i [] h = refl
held_none i (f ∷ fs) h =
    ground (arith, held_none i fs, contains_none i f.ids, contains_none i f.spared)

pub in_flight-pick :
    (i n : ℕ) (fs : List Flight) (f : Flight) (rest : List Flight)
    → pick n fs ≡ some (f, rest)
    → in_flight i fs
      ≡ count_if (λ a. a == i) f.ids + count_if (λ a. a == i) f.spared + in_flight i rest
in_flight-pick i n [] f rest h = ground arith
in_flight-pick i zero (g ∷ fs) f rest h = ground arith
in_flight-pick i (suc n) (g ∷ fs) f rest h = elim (Option-cases (pick n fs)) [
  | inl e ↦ ground arith
  | inr ((a, b), e) ↦ ground (arith, in_flight-pick i n fs a b e)
]

pub held_of_mem :
    (i : ℕ) (fs : List Flight) {f : Flight} → Memᴰ f fs → is_held f i ≡ true → held_now fs i ≡ true
held_of_mem i [] m c = elim m [ ]
held_of_mem i (g ∷ fs) (head e) c = let c' : is_held g i ≡ true = rw (← e) c in ground (arith, c')
held_of_mem i (g ∷ fs) (tail m) c = ground (arith, held_of_mem i fs m c)

pub in_flight_of_mem :
    (i : ℕ) (fs : List Flight) {f : Flight}
    → Memᴰ f fs
    → count_if (λ a. a == i) f.ids + count_if (λ a. a == i) f.spared ≤ in_flight i fs
in_flight_of_mem i [] m = elim m [ ]
in_flight_of_mem i (g ∷ fs) (head e) = rw e (omega arith)
in_flight_of_mem i (g ∷ fs) (tail m) = omega (arith, in_flight_of_mem i fs m)

pub held_some :
    (i : ℕ) (f : Flight)
    → is_held f i ≡ true
    → 1 ≤ count_if (λ a. a == i) f.ids + count_if (λ a. a == i) f.spared
held_some i f h = elim (Bool-cases (contains f.ids i)) [
  | inl c ↦ omega (arith, contains_some i f.ids c)
  | inr c ↦ ground (arith, c, contains_some i f.spared)
]

pub pick-All :
    (Q : Flight → Type 0) (n : ℕ) (fs : List Flight) (f : Flight) (rest : List Flight)
    → pick n fs ≡ some (f, rest)
    → All Q fs
    → Q f × All Q rest
pick-All Q i [] f rest h q = ground arith
pick-All Q zero (g ∷ fs) f rest h q =
    let ef : g ≡ f = cc in let er : fs ≡ rest = cc in (subst Q ef q.0, subst (All Q) er q.1)
pick-All Q (suc n) (g ∷ fs) f rest h q = elim (Option-cases (pick n fs)) [
  | inl e ↦ ground arith
  | inr ((a, b), e) ↦
      let (qa, qb) = pick-All Q n fs a b e q.1 in
      let h' : ◌≡◌ {A = Option (Flight × List Flight)} (some (a, g ∷ b)) (some (f, rest)) =
        rw e at h in
      let ea : a ≡ f = cc in
      let eb : g ∷ b ≡ rest = cc in (subst Q ea qa, subst (All Q) eb (q.0, qb))
]

module _ {P : Type 0} where
  abbrev pub with_id : ℕ → List (Row P) → ℕ
  with_id i rs = count_if (λ r. r.id == i) rs

  abbrev pub ready_with_id : ℕ → List (Row P) → ℕ
  ready_with_id i rs = count_if (λ r. is_ready r.state && r.id == i) rs

  pub ready-le : (i : ℕ) (rs : List (Row P)) → ready_with_id i rs ≤ with_id i rs
  ready-le i [] = omega arith
  ready-le i (r ∷ rs) = ground (arith, ready-le i rs)

  free_with_id :
      (held : ℕ → Bool) (now : ℕ) (kinds : List String) (i : ℕ) (rs : List (Row P))
      → count_if (λ r. r.id == i && free held now kinds r) rs
        ≤ (if held i then 0 else ready_with_id i rs)
  free_with_id held now kinds i [] = ground arith
  free_with_id held now kinds i (r ∷ rs) = ground (arith, free_with_id held now kinds i rs)

  pub locked_with_id :
      (by_run_at : OrderBy (Row P) (λ r. r.run_at)) (held : ℕ → Bool) (kinds : List String)
      (k now i : ℕ) (db : Db P)
      → count_if (λ a. a == i) (map (λ r. r.id) (lock_rows by_run_at held kinds k now db))
        ≤ (if held i then 0 else ready_with_id i db.jobs)
  unfolding lock_rows
  locked_with_id by_run_at held kinds k now i db =
      let eligible = select (free held now kinds) db.jobs in
      omega (
        arith,
        count_if-map (λ a. a == i) (λ r. r.id) (take k (by_run_at.sort eligible)),
        count_if-take-le (λ r. r.id == i) k (by_run_at.sort eligible),
        count_if-perm (λ r. r.id == i) (by_run_at.sort-perm eligible),
        count_if-select (λ r. r.id == i) (free held now kinds) db.jobs,
        free_with_id held now kinds i db.jobs,
      )

  -- After the update the rows of the batch are not ready, and the others are as they were.
  pub ready-update :
      (ids : List ℕ) (now : ℕ) (worker : String) (i : ℕ) (rs : List (Row P))
      → ready_with_id i (update_where (λ r. contains ids r.id) (claimed_row now worker) rs)
        ≡ (if contains ids i then 0 else ready_with_id i rs)
  ready-update ids now worker i [] = ground arith
  ready-update ids now worker i (r ∷ rs) = ground (arith, ready-update ids now worker i rs)

  pub with_id-update :
      (ids : List ℕ) (now : ℕ) (worker : String) (i : ℕ) (rs : List (Row P))
      → with_id i (update_where (λ r. contains ids r.id) (claimed_row now worker) rs) ≡ with_id i rs
  with_id-update ids now worker i [] = refl
  with_id-update ids now worker i (r ∷ rs) = ground (arith, with_id-update ids now worker i rs)

  -- A batch returns the rows of its ids.
  pub returned_with_id :
      (ids : List ℕ) (now : ℕ) (worker : String) (i : ℕ) (rs : List (Row P))
      → count_if
          (λ j. j.id == i)
          (map job_of (returning (λ r. contains ids r.id) (claimed_row now worker) rs))
        ≡ (if contains ids i then with_id i rs else 0)
  returned_with_id ids now worker i [] = ground arith
  returned_with_id ids now worker i (r ∷ rs) = ground (arith, returned_with_id ids now worker i rs)
