-- ===== src/Bench/Crew/Marks.antt =====
-- What the completion of one job does to the backlog, and the jobs that are still to be completed.
use skip_locked.Prelude.{
  ℕ, zero, suc, ◌+◌, ◌≤◌, ◌≡◌, refl, List, [], ◌∷◌, Bool, true, false, Option, some, String, arith,
  contains, count_if, ◌==◌, ◌&&◌, if◌then◌else◌, All, inl, inr, Option-cases, Bool-cases, length,
}
use skip_locked.Jobs.{Row, done, is_running, JobState}
use skip_locked.Jobs.Update.{update_where}
use skip_locked.Enqueue.{done_row}
use skip_locked.Claim.{any_kind, claimed_row}
use skip_locked.Claimers.{Flight}
use skip_locked.Claimers.Counts.{with_id}
use skip_locked.Bench.Crew.{Batch, take_at}
use skip_locked.Bench.Crew.Rows.{AsFound, is_open, is_bad, is_loose}

abbrev pub is_done : JobState → Bool
is_done done = true
is_done _ = false

module _ {P : Type 0} where
  -- How often a job stands in the batches, and how many jobs and claimed rows these have.
  abbrev pub marked_times : ℕ → List (Batch P) → ℕ
  marked_times i [] = 0
  marked_times i (b ∷ bs) = count_if (λ j. j.id == i) b.left + marked_times i bs

  abbrev pub lefts : List (Batch P) → ℕ
  lefts [] = 0
  lefts (b ∷ bs) = length b.left + lefts bs

  abbrev pub sizes : List (Batch P) → ℕ
  sizes [] = 0
  sizes (b ∷ bs) = b.size + sizes bs

  pub batches-take_at :
      (n : ℕ) (bs rest : List (Batch P)) (b : Batch P)
      → take_at n bs ≡ some (b, rest)
      → ((i : ℕ) → marked_times i bs ≡ count_if (λ j. j.id == i) b.left + marked_times i rest)
        × (lefts bs ≡ length b.left + lefts rest)
        × (sizes bs ≡ b.size + sizes rest)
  batches-take_at n [] rest b h = absurd (ground arith)
  batches-take_at zero (c ∷ bs) rest b h =
      let e : c ≡ b = cc in
      let q : bs ≡ rest = cc in (λ i. rw (e, q) refl, rw (e, q) refl, rw (e, q) refl)
  batches-take_at (suc n) (c ∷ bs) rest b h = elim (Option-cases (take_at n bs)) [
    | inl e ↦ absurd (ground arith)
    | inr ((a, others), e) ↦
        let (x, y, z) = batches-take_at n bs others a e in
        let h' : ◌≡◌ {A = Option (Batch P × List (Batch P))} (some (a, c ∷ others))
            (some (b, rest)) =
          rw e at h in
        let ea : a ≡ b = cc in
        let er : c ∷ others ≡ rest = cc in
        (
          λ i. rw (← ea, ← er) (omega (arith, x i)),
          rw (← ea, ← er) (omega (arith, y)),
          rw (← ea, ← er) (omega (arith, z)),
        )
  ]

module _ {P : Type 0} (kinds : List String) where
  -- A row of the crew's kinds that runs, or is done.
  abbrev pub is_busy : ℕ → Row P → Bool
  is_busy i r = r.id == i && (is_running r.state && any_kind kinds r.kind)

  abbrev pub is_finished : Row P → Bool
  is_finished r = is_done r.state && any_kind kinds r.kind

  pub busy-le : (i : ℕ) (rs : List (Row P)) → count_if (is_busy i) rs ≤ with_id i rs
  busy-le i [] = omega arith
  busy-le i (r ∷ rs) = ground (arith, busy-le i rs)

  -- A commit makes its rows busy, which were not, and finishes none.
  module _ (f : Flight) (worker : String) where
    abbrev updated : List (Row P) → List (Row P)
    updated rs = update_where (λ r. contains f.ids r.id) (claimed_row f.started worker) rs

    pub busy-commit :
        (i : ℕ) (rs : List (Row P))
        → f.kinds ≡ kinds
        → All (AsFound f) rs
        → count_if (is_busy i) (updated rs)
          ≡ (if contains f.ids i then with_id i rs else count_if (is_busy i) rs)
    busy-commit i [] e q = ground arith
    busy-commit i (r ∷ rs) e q = ground (arith, busy-commit i rs e q.1, q.0, e)

    pub not_busy :
        (i : ℕ) (rs : List (Row P))
        → All (AsFound f) rs
        → contains f.ids i ≡ true
        → count_if (is_busy i) rs ≡ 0
    not_busy i [] q h = refl
    not_busy i (r ∷ rs) q h = ground (arith, not_busy i rs q.1 h, q.0)

    pub finished-commit :
        (rs : List (Row P))
        → All (AsFound f) rs
        → count_if is_finished (updated rs) ≡ count_if is_finished rs
    finished-commit [] q = refl
    finished-commit (r ∷ rs) q = ground (arith, finished-commit rs q.1, q.0)

  module _ (id : ℕ) where
    abbrev marked : List (Row P) → List (Row P)
    marked rs = update_where (λ r. r.id == id) done_row rs

    pub busy-mark :
        (i : ℕ) (rs : List (Row P))
        → count_if (is_busy i) (marked rs) ≡ (if id == i then 0 else count_if (is_busy i) rs)
    busy-mark i [] = ground arith
    busy-mark i (r ∷ rs) = ground (arith, busy-mark i rs)

    pub bad-mark :
        (start : ℕ) (rs : List (Row P))
        → count_if (is_bad kinds start) (marked rs) ≤ count_if (is_bad kinds start) rs
    bad-mark start [] = omega arith
    bad-mark start (r ∷ rs) = ground (arith, bad-mark start rs)

    pub loose-mark :
        (fs : List Flight) (rs : List (Row P))
        → count_if (is_loose kinds fs) (marked rs) ≤ count_if (is_loose kinds fs) rs
    loose-mark fs [] = omega arith
    loose-mark fs (r ∷ rs) = ground (arith, loose-mark fs rs)

    pub named-mark :
        (is : List ℕ) (rs : List (Row P))
        → count_if (λ r. contains is r.id) (marked rs) ≡ count_if (λ r. contains is r.id) rs
    named-mark is [] = refl
    named-mark is (r ∷ rs) = ground (arith, named-mark is rs)

    -- Rows with other ids are as they were.
    miss :
        (p : Row P → Bool) (rs : List (Row P))
        → with_id id rs ≡ 0
        → count_if p (marked rs) ≡ count_if p rs
    miss p [] h = refl
    miss p (r ∷ rs) h = ground (arith, miss p rs)

    -- The busy row is finished.
    pub finished-mark :
        (rs : List (Row P))
        → with_id id rs ≤ 1
        → 1 ≤ count_if (is_busy id) rs
        → count_if is_finished (marked rs) ≡ suc (count_if is_finished rs)
    finished-mark [] u h = absurd (omega arith)
    finished-mark (r ∷ rs) u h = elim (Bool-cases (r.id == id)) [
      | inl t ↦ ground (arith, t, busy-le id rs, miss is_finished rs)
      | inr t ↦ ground (arith, t, finished-mark rs)
    ]

    pub open-mark :
        (rs : List (Row P))
        → with_id id rs ≤ 1
        → 1 ≤ count_if (is_busy id) rs
        → count_if (is_open kinds) (marked rs) ≡ count_if (is_open kinds) rs
    open-mark [] u h = refl
    open-mark (r ∷ rs) u h = elim (Bool-cases (r.id == id)) [
      | inl t ↦ ground (arith, t, busy-le id rs, miss (is_open kinds) rs)
      | inr t ↦ ground (arith, t, open-mark rs)
    ]
