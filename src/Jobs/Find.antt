-- ===== src/Jobs/Find.antt =====
-- Rows by their primary key.
use mathlib.Core.List.Memᴰ.{head, tail}
use skip_locked.Prelude.{
  ℕ, ◌≡◌, refl, List, [], ◌∷◌, Bool, true, if◌then◌else◌, select, count_if, arith, Memᴰ, Bool-cases,
  inl, inr, ◌==◌, Option, none, some, ◌<◌, ◌≤◌, ap,
}
use skip_locked.Jobs.{Row}
use skip_locked.Jobs.Update.{update_where, delete_where}

module _ {P : Type 0} where
  -- `SELECT * FROM jobs WHERE id = i`.
  abbrev pub find : ℕ → List (Row P) → Option (Row P)
  find i [] = none
  find i (r ∷ rs) = if r.id == i then some r else find i rs

  -- The keys fall along the list and stay under the bound, so they are unique.
  abbrev pub Below : ℕ → List (Row P) → Type 0
  Below n [] = Unit {0}
  Below n (r ∷ rs) = (r.id < n) × Below r.id rs

  pub Below-mono : {m n : ℕ} (rs : List (Row P)) → m ≤ n → Below m rs → Below n rs
  Below-mono [] h b = tt
  Below-mono (r ∷ rs) h b = (omega arith, b.1)

  pub id-lt_of_mem : (n : ℕ) (rs : List (Row P)) {r : Row P} → Below n rs → Memᴰ r rs → r.id < n
  id-lt_of_mem n [] b m = elim m [ ]
  id-lt_of_mem n (s ∷ rs) b (head e) = rw e b.0
  id-lt_of_mem n (s ∷ rs) b (tail m) = omega (arith, b.0, id-lt_of_mem s.id rs b.1 m)

  -- Two rows of the table with one key are one row.
  pub unique :
      (n : ℕ) (rs : List (Row P)) {r s : Row P}
      → Below n rs
      → Memᴰ r rs
      → Memᴰ s rs
      → r.id ≡ s.id
      → r ≡ s
  unique n [] b m m' e = elim m [ ]
  unique n (x ∷ rs) b (head p) (head q) e = rw (p, q)
  unique n (x ∷ rs) {r} {s} b (head p) (tail m') e =
      absurd (omega (arith, id-lt_of_mem x.id rs b.1 m', ap (λ (r : Row P). r.id) p))
  unique n (x ∷ rs) {r} {s} b (tail m) (head q) e =
      absurd (omega (arith, id-lt_of_mem x.id rs b.1 m, ap (λ (r : Row P). r.id) q))
  unique n (x ∷ rs) b (tail m) (tail m') e = unique x.id rs b.1 m m' e

  pub find-mem :
      (i : ℕ) (rs : List (Row P)) {r : Row P} → find i rs ≡ some r → Memᴰ r rs × (r.id ≡ i)
  find-mem i [] h = ground arith
  find-mem i (x ∷ rs) {r} h = elim (Bool-cases (x.id == i)) [
    | inl t ↦ let e : some x ≡ some r = rw t at h in (head (ground arith), ground arith)
    | inr u ↦ let e : find i rs ≡ some r = rw u at h in let (m, k) = find-mem i rs e in (tail m, k)
  ]

  pub find_of_mem :
      (n : ℕ) (rs : List (Row P)) {r : Row P} → Below n rs → Memᴰ r rs → find r.id rs ≡ some r
  find_of_mem n [] b m = elim m [ ]
  find_of_mem n (x ∷ rs) {r} b (head p) = rw p (ground arith)
  find_of_mem n (x ∷ rs) {r} b (tail m) =
      ground (arith, id-lt_of_mem x.id rs b.1 m, find_of_mem x.id rs b.1 m)

  pub find_above : (i n : ℕ) (rs : List (Row P)) → Below n rs → n ≤ i → find i rs ≡ none
  find_above i n [] b h = refl
  find_above i n (x ∷ rs) b h = ground (arith, find_above i x.id rs b.1)

  -- What an update that keeps the keys does to the row with key `i`.
  pub find-update_where :
      (p : Row P → Bool) (f : Row P → Row P) (i : ℕ) (rs : List (Row P))
      → ((r : Row P) → (f r).id ≡ r.id)
      → find i (update_where p f rs)
        ≡ elim (find i rs) [ none ↦ none | some r ↦ some (if p r then f r else r) ]
  find-update_where p f i [] k = refl
  find-update_where p f i (r ∷ rs) k = ground (arith, k r, find-update_where p f i rs k)

  pub update_where-Below :
      (n : ℕ) (p : Row P → Bool) (f : Row P → Row P) (rs : List (Row P))
      → ((r : Row P) → (f r).id ≡ r.id)
      → Below n rs
      → Below n (update_where p f rs)
  update_where-Below n p f [] k b = tt
  update_where-Below n p f (r ∷ rs) k b = ground (arith, k r, update_where-Below r.id p f rs k b.1)

  pub select-Below :
      (n : ℕ) (p : Row P → Bool) (rs : List (Row P)) → Below n rs → Below n (select p rs)
  select-Below n p [] b = tt
  select-Below n p (r ∷ rs) b =
      ground (arith, select-Below r.id p rs b.1, Below-mono {m = r.id} {n = n} (select p rs))

  -- At most one row has key `i`, and `find` tells whether one does.
  pub count_id :
      (i n : ℕ) (rs : List (Row P))
      → Below n rs
      → count_if (λ r. r.id == i) rs ≡ elim (find i rs) [ none ↦ 0 | some r ↦ 1 ]
  count_id i n [] b = refl
  count_id i n (r ∷ rs) b = ground (arith, count_id i r.id rs b.1, find_above i r.id rs b.1)

  -- A test that only the row with key `i` can pass counts that row, or nothing.
  pub count_keyed :
      (p : Row P → Bool) (i n : ℕ) (rs : List (Row P))
      → Below n rs
      → ((r : Row P) → p r ≡ true → r.id ≡ i)
      → count_if p rs ≡ elim (find i rs) [ none ↦ 0 | some r ↦ if p r then 1 else 0 ]
  count_keyed p i n [] b k = refl
  count_keyed p i n (r ∷ rs) b k = elim (Bool-cases (p r)) [
    | inl t ↦ ground (arith, t, k r t, count_keyed p i r.id rs b.1 k, find_above i r.id rs b.1)
    | inr f ↦ ground (arith, f, count_keyed p i r.id rs b.1 k, find_above i r.id rs b.1)
  ]

  -- The rows with key `i`, by the lookup.
  pub select_id :
      (i n : ℕ) (rs : List (Row P))
      → Below n rs
      → select (λ r. r.id == i) rs ≡ elim (find i rs) [ none ↦ [] | some r ↦ r ∷ [] ]
  select_id i n [] b = refl
  select_id i n (r ∷ rs) b = ground (arith, select_id i r.id rs b.1, find_above i r.id rs b.1)

  -- Deleting key `i` leaves every other row and takes that one.
  pub find-delete_where :
      (i j : ℕ) (rs : List (Row P))
      → find j (delete_where (λ r. r.id == i) rs) ≡ (if j == i then none else find j rs)
  find-delete_where i j [] = ground arith
  find-delete_where i j (r ∷ rs) = ground (arith, find-delete_where i j rs)

  pub delete_where_absent :
      (i : ℕ) (rs : List (Row P)) → find i rs ≡ none → delete_where (λ r. r.id == i) rs ≡ rs
  delete_where_absent i [] h = refl
  delete_where_absent i (r ∷ rs) h = ground (arith, delete_where_absent i rs)
