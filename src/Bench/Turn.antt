-- ===== src/Bench/Turn.antt =====
-- What the loop that claims and completes makes of the table in one turn.
use mathlib.Core.List.Memᴰ.{head, tail}
use skip_locked.Prelude.{
  ℕ, ◌+◌, ◌≤◌, ◌≡◌, refl, List, [], ◌∷◌, Bool, true, false, String, contains, count_if, any, map,
  arith, inl, inr, ap, ◌∙◌, Memᴰ, if◌then◌else◌, ◌==◌, Bool-cases, ◌||◌, ◌&&◌, sym,
}
use skip_locked.Postgres.{ok}
use skip_locked.Jobs.{Row, Db, Job, job_of}
use skip_locked.Jobs.Update.{update_where, returning}
use skip_locked.Session.{World, M, ◌>>◌, continue}
use skip_locked.Enqueue.{done_row, mark_done_sql}
use skip_locked.Claim.{free, claimed_row}
use skip_locked.Claim.Effect.{batch, claimed_db}
use skip_locked.Bench.Loops.{mark_all}
use skip_locked.Bench.Claimed.{full}

module _ {P : Type 0} where
  -- One update after another, row by row.
  pub update-update :
      (p q t : Row P → Bool) (f g h : Row P → Row P) (rs : List (Row P))
      → ((r : Row P)
          → Memᴰ r rs
          → (let s = (if p r then f r else r) in if q s then g s else s) ≡ (if t r then h r else r))
      → update_where q g (update_where p f rs) ≡ update_where t h rs
  update-update p q t f g h [] k = refl
  update-update p q t f g h (r ∷ rs) k =
      rw (k r (head refl), update-update p q t f g h rs (λ s m. k s (tail m)))

  abbrev pub named : List (Job P) → Row P → Bool
  named js r = any (λ j. r.id == j.id) js

  abbrev pub quiet : Db P → ℕ → World P
  quiet db now = record { db = db; clock = now; wire = [] }

  update_no_row : (rs : List (Row P)) → update_where (λ r. false) done_row rs ≡ rs
  update_no_row [] = refl
  update_no_row (r ∷ rs) = rw (update_no_row rs)

  both : (r : Row P) (c : Bool) → (if c then done_row r else done_row r) ≡ done_row r
  both r true = refl
  both r false = refl

  done-twice :
      (r : Row P) (js : List (Job P)) (b : Bool)
      → (let s = (if b then done_row r else r) in if named js s then done_row s else s)
        ≡ (if b || named js r then done_row r else r)
  done-twice r js true = both r (named js r)
  done-twice r js false = refl

  mark_all-named :
      (js : List (Job P)) (db : Db P) (now : ℕ)
      → mark_all js (quiet db now)
        ≡ (ok tt, quiet (record db { jobs = update_where (named js) done_row db.jobs }) now)
  unfolding mark_all mark_done_sql
  mark_all-named [] db now =
      ap (λ rs. (ok tt, quiet (record db { jobs = rs }) now)) (sym (update_no_row db.jobs))
  mark_all-named (j ∷ js) db now =
      mark_all-named js (record db { jobs = update_where (λ r. r.id == j.id) done_row db.jobs }) now
      ∙ ap (λ rs. (ok tt, quiet (record db { jobs = rs }) now))
          (update-update (λ r. r.id == j.id) (named js) (named (j ∷ js)) done_row done_row done_row
            db.jobs (λ r m. done-twice r js (r.id == j.id)))

  -- What a turn of the loop makes of a row that it claims.
  abbrev pub processed_row : ℕ → String → Row P → Row P
  processed_row now worker r = done_row (claimed_row now worker r)

  module _ (ids : List ℕ) (worker : String) (now : ℕ) where
    named-batch :
        (r : Row P) (rs : List (Row P))
        → named (map job_of (returning (λ s. contains ids s.id) (claimed_row now worker) rs)) r
          ≡ any (λ s. contains ids s.id && r.id == s.id) rs
    named-batch r [] = refl
    named-batch r (s ∷ rs) = ground (arith, named-batch r rs)

    any-miss :
        (r : Row P) (rs : List (Row P))
        → contains ids r.id ≡ false
        → any (λ s. contains ids s.id && r.id == s.id) rs ≡ false
    any-miss r [] h = refl
    any-miss r (s ∷ rs) h = ground (arith, any-miss r rs h)

    any-hit :
        (r : Row P) (rs : List (Row P))
        → Memᴰ r rs
        → contains ids r.id ≡ true
        → any (λ s. contains ids s.id && r.id == s.id) rs ≡ true
    any-hit r [] m h = elim m [ ]
    any-hit r (s ∷ rs) (head e) h = ground (arith, h, ap (λ (q : Row P). q.id) e)
    any-hit r (s ∷ rs) (tail m) h = ground (arith, any-hit r rs m h)

    named_eq :
        (db : Db P) (r : Row P)
        → Memᴰ r db.jobs
        → named (batch ids worker now db) r ≡ contains ids r.id
    named_eq db r m = elim (Bool-cases (contains ids r.id)) [
      | inl t ↦ named-batch r db.jobs ∙ any-hit r db.jobs m t ∙ sym t
      | inr t ↦ named-batch r db.jobs ∙ any-miss r db.jobs t ∙ sym t
    ]

    chosen : (x y : Row P) (c : Bool) → c ≡ true → (if c then x else y) ≡ x
    chosen x y true h = refl
    chosen x y false h = cc

    passed : (x y : Row P) (c : Bool) → c ≡ false → (if c then x else y) ≡ y
    passed x y true h = cc
    passed x y false h = refl

    turn-row :
        (js : List (Job P)) (r : Row P) (b : Bool)
        → named js r ≡ b
        → (let s = (if b then claimed_row now worker r else r) in
            if named js s then done_row s else s)
          ≡ (if b then processed_row now worker r else r)
    turn-row js r true h =
        chosen (processed_row now worker r) (claimed_row now worker r) (named js r) h
    turn-row js r false h = passed (done_row r) r (named js r) h

    -- A claim and the completion of its batch.
    turn-table :
        (db : Db P)
        → update_where
            (named (batch ids worker now db))
            done_row
            (claimed_db ids worker now db).jobs
          ≡ update_where (λ r. contains ids r.id) (processed_row now worker) db.jobs
    turn-table db =
        update-update (λ r. contains ids r.id) (named (batch ids worker now db))
          (λ r. contains ids r.id) (claimed_row now worker) done_row (processed_row now worker)
          db.jobs
          (λ r m. turn-row (batch ids worker now db) r (contains ids r.id) (named_eq db r m))

    -- The loop after a turn.
    pub after_turn :
        {A : Type 0} (m : M P A) (db : Db P) (js : List (Job P))
        → batch ids worker now db ≡ js
        → (mark_all js >> m) (quiet (claimed_db ids worker now db) now)
          ≡ m (
              quiet
                (record db {
                  jobs = update_where (λ r. contains ids r.id) (processed_row now worker) db.jobs;
                })
                now)
    after_turn m db js e =
        ap (λ x. continue x.0 (λ u. m) x.1) (mark_all-named js (claimed_db ids worker now db) now)
        ∙ ap
            (λ bs. m (
              quiet
                (record db {
                  jobs = update_where (named bs) done_row (claimed_db ids worker now db).jobs;
                })
                now))
            (sym e)
        ∙ ap (λ rs. m (quiet (record db { jobs = rs }) now)) (turn-table db)

    pub free-processed :
        (held : ℕ → Bool) (kinds : List String) (rs : List (Row P))
        → count_if
              (free held now kinds)
              (update_where (λ r. contains ids r.id) (processed_row now worker) rs)
            + count_if (λ r. free held now kinds r && contains ids r.id) rs
          ≡ count_if (free held now kinds) rs
    free-processed held kinds [] = omega arith
    free-processed held kinds (r ∷ rs) = ground (arith, free-processed held kinds rs)

    pub full-processed :
        (held : ℕ → Bool) (kinds : List String) (rs : List (Row P))
        → count_if
            (full held now kinds)
            (update_where (λ r. contains ids r.id) (processed_row now worker) rs)
          ≤ count_if (full held now kinds) rs
    full-processed held kinds [] = omega arith
    full-processed held kinds (r ∷ rs) = ground (arith, full-processed held kinds rs)

    -- A processed row is not free again.
    pub spent :
        (held : ℕ → Bool) (kinds : List String) (r : Row P) (b : Bool)
        → (b ≡ true → free held now kinds r ≡ true)
        → (let s = (if b then processed_row now worker r else r) in
            if free held now kinds s then processed_row now worker s else s)
          ≡ (if free held now kinds r then processed_row now worker r else r)
    spent held kinds r true h =
        sym (chosen (processed_row now worker r) r (free held now kinds r) (h refl))
    spent held kinds r false h = refl
