-- ===== src/Claimers/Reserved.antt =====
-- The rows that a claim in flight locked stay as it found them until it commits.
use mathlib.Core.List.Memᴰ.{head, tail}
use skip_locked.Prelude.{
  ℕ, ◌<◌, ◌≡◌, ◌∙◌, Bool, true, String, arith, All, All-mem, Memᴰ, contains, ◌==◌, inl, inr, refl,
  ◌*◌, List, [], ◌∷◌, select, mem-select, subst, Bool-cases, any, leb, ◌&&◌,
}
use skip_locked.Prelude.Int.{pos, negsuc, fits_i64, scale}
use skip_locked.Postgres.{Result-cases}
use skip_locked.Jobs.{Row, Db}
use skip_locked.Jobs.Update.{update_where, delete_where}
use skip_locked.Jobs.Find.{Below}
use skip_locked.Enqueue.{insert_job, insert_job_at, insert_row, mark_done_sql, done_row}
use skip_locked.Claim.{claim_batch_sql, claimed_row, claimable, update_claimed}
use skip_locked.Claim.Batch.{claim_batch_sql-ok, locked_ids, locked-free}
use skip_locked.Claim.Fair.{fair_claim_sql, fair_ids}
use skip_locked.Claim.Fair.Winners.{fair_claim_sql-ok, fair_ids-mem}
use skip_locked.Lease.{
  heartbeat_sql, reap_sql, holds, beaten, expired, released, cutoff, lease_secs,
}
use skip_locked.Retry.{requeue_sql, dead_letter_sql, retriable, requeued, max_exponent}
use skip_locked.Queue.{
  IsClaim, Op, insert, insert_at, claim, claim_fairly, finish, beat, reaps, retry, bury, after,
  apply,
}
use skip_locked.Queue.Lawful.{Inv}
use skip_locked.Claimers.{Flight, is_held}
use skip_locked.Claimers.Steps.{Passes, answer, answer_of}

module _ {P : Type 0} where
  abbrev pub held_rows : Flight → Db P → List (Row P)
  held_rows f db = select (λ r. is_held f r.id) db.jobs

  -- A whole statement that does at any moment what the flight's commit does then, while its rows are these.
  pub record Replay (f : Flight) (rows : List (Row P)) : Type 0 where
    pub op : Op P
    pub claims : IsClaim op
    pub tables :
        (db : Db P)
        → Below db.next_id db.jobs
        → held_rows f db ≡ rows
        → apply op f.started db ≡ after db (update_claimed f.ids f.worker f.started db)
    pub answers :
        (db : Db P)
        → Below db.next_id db.jobs
        → held_rows f db ≡ rows
        → answer op f.started db ≡ answer_of (update_claimed f.ids f.worker f.started db)

  -- The ids of a flight were handed out, and their rows are as the claim found them.
  pub record Reserved (db : Db P) (f : Flight) : Type 0 where
    pub known : (i : ℕ) → is_held f i ≡ true → i < db.next_id
    pub rows : List (Row P)
    pub same : held_rows f db ≡ rows
    pub found : All (λ r. claimable f.started f.kinds r ≡ true) rows
    pub replay : Replay f rows

  -- A row that the flight holds is claimable.
  pub as_found :
      (f : Flight) (db : Db P) (rows : List (Row P))
      → held_rows f db ≡ rows
      → All (λ r. claimable f.started f.kinds r ≡ true) rows
      → (r : Row P) → Memᴰ r db.jobs
      → is_held f r.id ≡ true
      → claimable f.started f.kinds r ≡ true
  as_found f db rows same found r m h =
      All-mem (λ q. claimable f.started f.kinds q ≡ true) rows found
        (subst (Memᴰ r) same (mem-select (λ q. is_held f q.id) db.jobs m h))

  select-update :
      (f : Flight) (p : Row P → Bool) (g : Row P → Row P) (rs : List (Row P))
      → ((r : Row P) → (g r).id ≡ r.id)
      → ((r : Row P) → Memᴰ r rs → p r ≡ true → is_held f r.id ≡ true → ⊥)
      → select (λ r. is_held f r.id) (update_where p g rs) ≡ select (λ r. is_held f r.id) rs
  select-update f p g [] k apart = refl
  select-update f p g (r ∷ rs) k apart =
      let ih = select-update f p g rs k (λ s m. apart s (tail m)) in
      elim (Bool-cases (p r)) [
        | inl t ↦ elim (Bool-cases (is_held f r.id)) [
          | inl h ↦ absurd (apart r (head refl) t h)
          | inr h ↦ rw (t, k r, h) ih
        ]
        | inr t ↦ rw (t, ih) refl
      ]

  select-delete :
      (f : Flight) (p : Row P → Bool) (rs : List (Row P))
      → ((r : Row P) → Memᴰ r rs → p r ≡ true → is_held f r.id ≡ true → ⊥)
      → select (λ r. is_held f r.id) (delete_where p rs) ≡ select (λ r. is_held f r.id) rs
  select-delete f p [] apart = refl
  select-delete f p (r ∷ rs) apart =
      let ih = select-delete f p rs (λ s m. apart s (tail m)) in
      elim (Bool-cases (p r)) [
        | inl t ↦ elim (Bool-cases (is_held f r.id)) [
          | inl h ↦ absurd (apart r (head refl) t h)
          | inr h ↦ rw (t, h) ih
        ]
        | inr t ↦ rw (t, ih) refl
      ]

  module _ (f : Flight) (db : Db P) (v : Reserved db f) where
    pub reserved-claimable :
        (r : Row P) → Memᴰ r db.jobs → is_held f r.id ≡ true → claimable f.started f.kinds r ≡ true
    reserved-claimable = as_found f db v.rows v.same v.found

    -- An update that leaves the locked rows alone.
    pub update-Reserved :
        (p : Row P → Bool) (g : Row P → Row P)
        → ((r : Row P) → (g r).id ≡ r.id)
        → ((r : Row P)
            → Memᴰ r db.jobs
            → p r ≡ true
            → is_held f r.id ≡ true
            → claimable f.started f.kinds r ≡ true
            → ⊥)
        → Reserved (record db { jobs = update_where p g db.jobs }) f
    update-Reserved p g k apart = record {
      known = v.known;
      rows = v.rows;
      same =
          select-update f p g db.jobs k (λ r m t h. apart r m t h (reserved-claimable r m h))
          ∙ v.same;
      found = v.found;
      replay = v.replay;
    }

    insert_row-Reserved :
        (kind : String) (payload : P) (run_at : ℕ)
        → Reserved (after db (insert_row kind payload run_at db)) f
    insert_row-Reserved kind payload run_at = record {
      known = λ i c. omega (arith, v.known i c);
      rows = v.rows;
      same = elim (Bool-cases (is_held f db.next_id)) [
        | inl h ↦ absurd (omega (arith, v.known db.next_id h))
        | inr h ↦ rw h v.same
      ];
      found = v.found;
      replay = v.replay;
    }

    -- A statement that Postgres lets through.
    pub apply-Reserved :
        (locked : ℕ → Bool) (op : Op P) (now : ℕ)
        → ((i : ℕ) → is_held f i ≡ true → locked i ≡ true)
        → Passes locked op
        → Inv db
        → Reserved (apply op now db) f
    unfolding apply insert_job insert_job_at mark_done_sql heartbeat_sql dead_letter_sql reap_sql
        requeue_sql
    apply-Reserved locked (insert kind payload) now mine w inv =
        insert_row-Reserved kind payload now
    apply-Reserved locked (insert_at kind payload run_at) now mine w inv =
        insert_row-Reserved kind payload run_at
    apply-Reserved locked (claim order held kinds (negsuc n) worker) now mine w inv =
        unfold claim_batch_sql in v
    apply-Reserved locked (claim order held kinds (pos k) worker) now mine w inv =
        elim (Result-cases (claim_batch_sql order held kinds (pos k) worker now db)) [
          | inr (e, q) ↦ rw q v
          | inl (a, q) ↦ rw q (
              rw (claim_batch_sql-ok order held kinds k worker now db q).1 (
                update-Reserved (λ r. contains (locked_ids order held kinds k now db) r.id)
                  (claimed_row now worker) (λ r. refl)
                  (λ r m t c h. ground (
                    arith,
                    (locked-free order held kinds k now db.next_id db inv.fresh m t).1,
                    mine r.id c,
                    w r.id,
                  ))))
        ]
    apply-Reserved locked (claim_fairly json order window held kinds (negsuc n) share worker) now
          mine w inv =
        unfold fair_claim_sql in
        elim (Bool-cases (fits_i64 (scale (negsuc n) 4))) [ inl t ↦ rw t v | inr t ↦ rw t v ]
    apply-Reserved locked (claim_fairly json order window held kinds (pos size) share worker) now
          mine w inv =
        elim (Result-cases
          (fair_claim_sql json order window held kinds (pos size) share worker now db)) [
            | inr (e, q) ↦ rw q v
            | inl (a, q) ↦ rw q (
                rw (fair_claim_sql-ok json order window held kinds size share worker now db q).1 (
                  update-Reserved
                    (λ r.
                      contains (fair_ids json order window held kinds (size * 4) share now db) r.id)
                    (claimed_row now worker) (λ r. refl)
                    (λ r m t c h. ground (
                      arith,
                      (fair_ids-mem json order window held kinds (size * 4) share now db.next_id db
                          inv.fresh m t).1,
                      mine r.id c,
                      w r.id,
                    ))))
          ]
    apply-Reserved locked (finish id) now mine w inv =
        update-Reserved (λ r. r.id == id) done_row (λ r. refl)
          (λ r m t c h. ground (arith, mine r.id c, w))
    apply-Reserved locked (beat ids worker) now mine w inv =
        update-Reserved (holds ids worker) (beaten now) (λ r. refl) (λ r m t c h. ground arith)
    apply-Reserved locked (reaps lease) now mine w inv =
        elim (Result-cases (cutoff (lease_secs lease) now)) [
          | inr (e, q) ↦ rw q v
          | inl (a, q) ↦
              rw q (update-Reserved (expired a) released (λ r. refl) (λ r m t c h. ground arith))
        ]
    apply-Reserved locked (retry id error) now mine w inv =
        elim (Bool-cases (any (λ r. retriable id r && leb max_exponent r.attempts) db.jobs)) [
          | inl t ↦ rw t v
          | inr t ↦ rw t (
              update-Reserved (retriable id) (requeued error now) (λ r. refl)
                (λ r m t c h. ground (arith, mine r.id c, w)))
        ]
    apply-Reserved locked (bury id error) now mine w inv = record {
      known = v.known;
      rows = v.rows;
      same =
          select-delete f (λ r. r.id == id) db.jobs (λ r m t c. ground (arith, mine r.id c, w))
          ∙ v.same;
      found = v.found;
      replay = v.replay;
    }
