-- ===== src/Bench/Crew/Rows.antt =====
-- What the claims of the crew leave of the backlog.
use skip_locked.Prelude.{
  ap, true, length, ℕ, zero, suc, ◌+◌, ◌≤◌, ◌≡◌, refl, List, [], ◌∷◌, Bool, some, String, arith,
  contains, count_if, ◌&&◌, ◌||◌, not, leb, All, inl, inr, Option-cases,
}
use skip_locked.Postgres.OrderBy.{OrderBy}
use skip_locked.Jobs.{Row, Db, is_ready}
use skip_locked.Jobs.Update.{update_where}
use skip_locked.Claim.{claimable, any_kind, free, claimed_row, overflows, max_int}
use skip_locked.Claim.Batch.{locked_ids}
use skip_locked.Bench.Claimed.{free-locked}
use skip_locked.Jobs.Find.{Below}
use skip_locked.Bench.Crew.{take_at}
use skip_locked.Claimers.{Flight, is_held, held_now, pick}

held_now-pick :
    (i n : ℕ) (fs rest : List Flight) (f : Flight)
    → pick n fs ≡ some (f, rest)
    → held_now fs i ≡ (is_held f i || held_now rest i)
held_now-pick i n [] rest f h = ground arith
held_now-pick i zero (g ∷ fs) rest f h = ground arith
held_now-pick i (suc n) (g ∷ fs) rest f h = elim (Option-cases (pick n fs)) [
  | inl e ↦ ground arith
  | inr ((a, b), e) ↦ ground (arith, held_now-pick i n fs b a e)
]

pub length-take_at :
    {A : Type 0} (i : ℕ) (ws rest : List A) (w : A)
    → take_at i ws ≡ some (w, rest)
    → length ws ≡ suc (length rest)
length-take_at i [] rest w h = ground arith
length-take_at zero (v ∷ ws) rest w h = let e : ws ≡ rest = cc in omega (arith, ap length e)
length-take_at (suc i) (v ∷ ws) rest w h = elim (Option-cases (take_at i ws)) [
  | inl e ↦ ground arith
  | inr ((a, b), e) ↦ ground (arith, length-take_at i ws b a e)
]

pub length-pick :
    (i : ℕ) (fs rest : List Flight) (f : Flight)
    → pick i fs ≡ some (f, rest)
    → length fs ≡ suc (length rest)
length-pick i [] rest f h = ground arith
length-pick zero (g ∷ fs) rest f h = ground arith
length-pick (suc i) (g ∷ fs) rest f h = elim (Option-cases (pick i fs)) [
  | inl e ↦ ground arith
  | inr ((a, b), e) ↦ ground (arith, length-pick i fs b a e)
]

module _ {P : Type 0} where
  -- A row that a flight will update is claimable.
  abbrev pub AsFound : Flight → Row P → Type 0
  AsFound f r = contains f.ids r.id ≡ true → claimable f.started f.kinds r ≡ true

module _ {P : Type 0} (kinds : List String) where
  -- A job of the backlog.
  abbrev pub is_open : Row P → Bool
  is_open r = is_ready r.state && any_kind kinds r.kind

  -- One that no claim under way holds.
  abbrev pub is_loose : List Flight → Row P → Bool
  is_loose fs r = is_open r && not (held_now fs r.id)

  pub open-update :
      (ids : List ℕ) (now : ℕ) (worker : String) (rs : List (Row P))
      → count_if is_open (update_where (λ r. contains ids r.id) (claimed_row now worker) rs)
          + count_if (λ r. is_open r && contains ids r.id) rs
        ≡ count_if is_open rs
  open-update ids now worker [] = omega arith
  open-update ids now worker (r ∷ rs) = ground (arith, open-update ids now worker rs)

  pub named-update :
      (is ids : List ℕ) (now : ℕ) (worker : String) (rs : List (Row P))
      → count_if
          (λ r. contains is r.id)
          (update_where (λ r. contains ids r.id) (claimed_row now worker) rs)
        ≡ count_if (λ r. contains is r.id) rs
  named-update is ids now worker [] = refl
  named-update is ids now worker (r ∷ rs) = ground (arith, named-update is ids now worker rs)

  -- A flight's rows are open.
  pub named-open :
      (f : Flight) (rs : List (Row P))
      → f.kinds ≡ kinds
      → All (AsFound f) rs
      → count_if (λ r. is_open r && contains f.ids r.id) rs ≡ count_if (λ r. contains f.ids r.id) rs
  named-open f [] e q = refl
  named-open f (r ∷ rs) e q = ground (arith, named-open f rs e q.1, q.0, e)

  pub loose-commit :
      (fs rest : List Flight) (f : Flight) (n now : ℕ) (worker : String) (rs : List (Row P))
      → f.spared ≡ []
      → pick n fs ≡ some (f, rest)
      → count_if
          (is_loose rest)
          (update_where (λ r. contains f.ids r.id) (claimed_row now worker) rs)
        ≤ count_if (is_loose fs) rs
  loose-commit fs rest f n now worker [] plain e = omega arith
  loose-commit fs rest f n now worker (r ∷ rs) plain e = ground (
    arith,
    loose-commit fs rest f n now worker rs plain e,
    held_now-pick r.id n fs rest f e,
    plain,
  )

  pub loose-lock :
      (fs : List Flight) (f : Flight) (rs : List (Row P))
      → count_if (is_loose (f ∷ fs)) rs ≤ count_if (is_loose fs) rs
  loose-lock fs f [] = omega arith
  loose-lock fs f (r ∷ rs) = ground (arith, loose-lock fs f rs)

  both-le : (p q : Row P → Bool) (rs : List (Row P)) → count_if (λ r. p r && q r) rs ≤ count_if q rs
  both-le p q [] = omega arith
  both-le p q (r ∷ rs) = ground (arith, both-le p q rs)

  module _ (start : ℕ) where
    -- One that is not due at the start, or has no room for an attempt.
    abbrev pub is_bad : Row P → Bool
    is_bad r = is_open r && not (leb r.run_at start && not (leb max_int r.attempts))

    pub bad-update :
        (ids : List ℕ) (now : ℕ) (worker : String) (rs : List (Row P))
        → count_if is_bad (update_where (λ r. contains ids r.id) (claimed_row now worker) rs)
          ≤ count_if is_bad rs
    bad-update ids now worker [] = omega arith
    bad-update ids now worker (r ∷ rs) = ground (arith, bad-update ids now worker rs)

    pub named-overflows :
        (f : Flight) (rs : List (Row P))
        → f.kinds ≡ kinds
        → All (AsFound f) rs
        → count_if (overflows f.ids) rs ≤ count_if is_bad rs
    named-overflows f [] e q = omega arith
    named-overflows f (r ∷ rs) e q = ground (arith, named-overflows f rs e q.1, q.0, e)

    loose-free :
        (fs : List Flight) (d : ℕ) (rs : List (Row P))
        → count_if (is_loose fs) rs
          ≤ count_if (free (held_now fs) (start + d) kinds) rs + count_if is_bad rs
    loose-free fs d [] = omega arith
    loose-free fs d (r ∷ rs) = ground (arith, loose-free fs d rs)

    -- A claim that finds no row leaves none loose.
    pub loose-empty :
        (order : OrderBy (Row P) (λ r. r.run_at)) (fs : List Flight) (size d n : ℕ) (db : Db P)
        → 1 ≤ size
        → Below n db.jobs
        → count_if is_bad db.jobs ≡ 0
        → count_if
            (λ r. contains (locked_ids order (held_now fs) kinds size (start + d) db) r.id)
            db.jobs
          ≡ 0
        → count_if (is_loose fs) db.jobs ≡ 0
    loose-empty order fs size d n db one b bad none_named = omega (
      arith,
      one,
      bad,
      none_named,
      loose-free fs d db.jobs,
      free-locked order (held_now fs) kinds size (start + d) n db b,
      both-le (free (held_now fs) (start + d) kinds)
          (λ r. contains (locked_ids order (held_now fs) kinds size (start + d) db) r.id) db.jobs,
    )
