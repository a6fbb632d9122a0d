-- ===== src/Claimers/Commit.antt =====
-- A claim that commits has the effect of a claim that runs at that moment and may take its rows.
use skip_locked.Prelude.{
  ℕ, ◌+◌, ◌≤◌, ◌≡◌, refl, sym, List, [], ◌∷◌, Bool, true, arith, Memᴰ, contains, not, inl, inr,
  Bool-cases, count_if, length, select, length-perm, length-select, mem-select, subst, take_all,
  ◌∙◌, All, ap,
}
use skip_locked.Prelude.Int.{pos}
use skip_locked.Postgres.OrderBy.{OrderBy, mem-sort}
use skip_locked.Jobs.{Row, Db}
use skip_locked.Jobs.Find.{Below}
use skip_locked.Claim.{claim_batch_sql, claimable, free, lock_rows, update_claimed}
use skip_locked.Claim.Same.{Same, update_claimed-Same}
use skip_locked.Claim.Picked.{with_key_of_mem}
use skip_locked.Claim.Batch.{locked_ids, locked-free, row_id, Below-Unique}
use skip_locked.Claimers.{Flight}
use skip_locked.Claimers.Counts.{with_id}
use skip_locked.Claimers.Reserved.{Replay, as_found, held_rows}
use skip_locked.Claimers.Steps.{answer, answer_of}
use skip_locked.Queue.{claim, after, apply}

module _ {P : Type 0} where
  count-or :
      (a : ℕ) (ids : List ℕ) (rs : List (Row P))
      → count_if (λ r. contains (a ∷ ids) r.id) rs
        ≤ with_id a rs + count_if (λ r. contains ids r.id) rs
  count-or a ids [] = omega arith
  count-or a ids (r ∷ rs) = ground (arith, count-or a ids rs)

  count_none : (rs : List (Row P)) → count_if (λ r. contains [] r.id) rs ≡ 0
  count_none [] = refl
  count_none (r ∷ rs) = ground (arith, count_none rs)

  -- A list of ids finds at most as many rows.
  count-ids :
      (ids : List ℕ) (rs : List (Row P))
      → ((i : ℕ) → with_id i rs ≤ 1)
      → count_if (λ r. contains ids r.id) rs ≤ length ids
  count-ids [] rs u = omega (arith, count_none rs)
  count-ids (a ∷ ids) rs u = omega (arith, u a, count-or a ids rs, count-ids ids rs u)

  module _ (order : OrderBy (Row P) (λ r. r.run_at)) (f : Flight) (db : Db P)
      (b : Below db.next_id db.jobs)
      (v : (r : Row P)
        → Memᴰ r db.jobs
        → contains f.ids r.id ≡ true
        → claimable f.started f.kinds r ≡ true) where
    -- All rows but those of the flight.
    abbrev pub others_held : ℕ → Bool
    others_held i = not (contains f.ids i)

    free-le :
        (rs : List (Row P))
        → count_if (free others_held f.started f.kinds) rs ≤ count_if (λ r. contains f.ids r.id) rs
    free-le [] = omega arith
    free-le (r ∷ rs) = ground (arith, free-le rs)

    abbrev retaken : List ℕ
    retaken = locked_ids order others_held f.kinds (length f.ids) f.started db

    retaken-all :
        lock_rows order others_held f.kinds (length f.ids) f.started db
        ≡ order.sort (select (free others_held f.started f.kinds) db.jobs)
    unfolding lock_rows
    retaken-all =
        let eligible = select (free others_held f.started f.kinds) db.jobs in
        take_all (length f.ids) (order.sort eligible) (
          omega (
            arith,
            length-perm (order.sort-perm eligible),
            length-select (free others_held f.started f.kinds) db.jobs,
            free-le db.jobs,
            count-ids f.ids db.jobs (Below-Unique db.next_id db.jobs b),
          ))

    retaken-Same : Same retaken f.ids db.jobs
    retaken-Same r m = elim (Bool-cases (contains f.ids r.id)) [
      | inl c ↦
          let fr : free others_held f.started f.kinds r ≡ true = ground (arith, c, v r m c) in
          let in_lock : Memᴰ r (lock_rows order others_held f.kinds (length f.ids) f.started db) =
            subst (Memᴰ r) (sym retaken-all)
              (mem-sort order _ (mem-select (free others_held f.started f.kinds) db.jobs m fr)) in
          with_key_of_mem row_id (lock_rows order others_held f.kinds (length f.ids) f.started db)
            in_lock
          ∙ sym c
      | inr c ↦ elim (Bool-cases (contains retaken r.id)) [
        | inl t ↦ ground (
          arith,
          c,
          (locked-free order others_held f.kinds (length f.ids) f.started db.next_id db b m t).1,
        )
        | inr t ↦ t ∙ sym c
      ]
    ]

    pub commit-claim :
        claim_batch_sql order others_held f.kinds (pos (length f.ids)) f.worker f.started db
        ≡ update_claimed f.ids f.worker f.started db
    unfolding claim_batch_sql
    commit-claim = update_claimed-Same retaken f.ids f.worker f.started db retaken-Same

  -- A plain claim commits as a claim that may take exactly its rows.
  pub plain-Replay :
      (order : OrderBy (Row P) (λ r. r.run_at)) (f : Flight) (rows : List (Row P))
      → f.spared ≡ []
      → All (λ r. claimable f.started f.kinds r ≡ true) rows
      → Replay f rows
  unfolding apply answer
  plain-Replay order f rows plain found = record {
    claims = tt;
    op = claim order (λ i. not (contains f.ids i)) f.kinds (pos (length f.ids)) f.worker;
    tables = λ db b same. ap (after db) (effect db b same);
    answers = λ db b same. ap answer_of (effect db b same);
  }
    where
      effect :
          (db : Db P)
          → Below db.next_id db.jobs
          → held_rows f db ≡ rows
          → claim_batch_sql order
              (λ i. not (contains f.ids i))
              f.kinds
              (pos (length f.ids))
              f.worker
              f.started
              db
            ≡ update_claimed f.ids f.worker f.started db
      effect db b same =
          commit-claim order f db b (λ r m c. as_found f db rows same found r m (ground (arith, c)))
