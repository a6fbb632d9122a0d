-- ===== src/Jobs/Update.antt =====
-- `UPDATE jobs SET … WHERE …` and `DELETE FROM jobs WHERE …` over the list of rows.
use skip_locked.Prelude.{
  ◌+◌, ◌≡◌, refl, List, [], ◌∷◌, Bool, true, if◌then◌else◌, select, count_if, map, All, arith, not,
  Memᴰ, Bool-cases, inl, inr, length,
}
use mathlib.Core.List.Memᴰ.{head, tail}

module _ {A : Type 0} where
  abbrev pub update_where : (A → Bool) → (A → A) → List A → List A
  update_where p f [] = []
  update_where p f (r ∷ rs) = (if p r then f r else r) ∷ update_where p f rs

  -- The new rows that an `UPDATE … RETURNING` gives back.
  abbrev pub returning : (A → Bool) → (A → A) → List A → List A
  returning p f rs = map f (select p rs)

  abbrev pub delete_where : (A → Bool) → List A → List A
  delete_where p rs = select (λ r. not (p r)) rs

  pub update_where-All :
      (Q : A → Type 0) (p : A → Bool) (f : A → A) (rs : List A)
      → ((r : A) → Memᴰ r rs → Q r → p r ≡ true → Q (f r))
      → All Q rs
      → All Q (update_where p f rs)
  update_where-All Q p f [] h q = tt
  update_where-All Q p f (r ∷ rs) h q = elim (Bool-cases (p r)) [
    | inl t ↦ rw t (h r (head refl) q.0 t, update_where-All Q p f rs (λ s m. h s (tail m)) q.1)
    | inr u ↦ rw u (q.0, update_where-All Q p f rs (λ s m. h s (tail m)) q.1)
  ]

  pub select-All : (Q : A → Type 0) (p : A → Bool) (rs : List A) → All Q rs → All Q (select p rs)
  select-All Q p [] q = tt
  select-All Q p (r ∷ rs) q = elim (Bool-cases (p r)) [
    | inl t ↦ rw t (q.0, select-All Q p rs q.1)
    | inr u ↦ rw u (select-All Q p rs q.1)
  ]

  pub length-update_where :
      (p : A → Bool) (f : A → A) (rs : List A) → length (update_where p f rs) ≡ length rs
  length-update_where p f [] = refl
  length-update_where p f (r ∷ rs) = omega (arith, length-update_where p f rs)

  -- Where nothing fits, nothing changes.
  pub update_where_none :
      (p : A → Bool) (f : A → A) (rs : List A) → count_if p rs ≡ 0 → update_where p f rs ≡ rs
  update_where_none p f [] h = refl
  update_where_none p f (r ∷ rs) h = elim (Bool-cases (p r)) [
    | inl t ↦ let h' : 1 + count_if p rs ≡ 0 = rw t at h in absurd (omega arith)
    | inr u ↦
        let h' : 0 + count_if p rs ≡ 0 = rw u at h in rw (u, update_where_none p f rs (omega arith))
  ]
