-- ===== src/Postgres/Pinned.antt =====
-- An order of ties that lets given rows keep their places: one of those that Postgres may choose.
use mathlib.Core.List.Memᴰ.{head, tail}
use mathlib.Core.List.Permᴰ as Perm
use skip_locked.Prelude.{
  ℕ, ◌≡◌, refl, ap, ◌∙◌, List, [], ◌∷◌, ◌++◌, Bool, true, ◌==◌, ==_iff, not, select, map, count_if,
  arith, Permᴰ, perm-select, length-perm, mem-perm,
}
use skip_locked.Postgres.OrderBy.{OrderBy}
use skip_locked.Claim.Picked.{Unique, select-perm}

module _ {A : Type 0} where
  select_none : (p : A → Bool) (xs : List A) → count_if p xs ≡ 0 → select p xs ≡ []
  select_none p [] h = refl
  select_none p (x ∷ xs) h = ground (arith, select_none p xs)

  select_rest : (p : A → Bool) (xs : List A) → count_if p xs ≡ 0 → select (λ a. not (p a)) xs ≡ xs
  select_rest p [] h = refl
  select_rest p (x ∷ xs) h = ground (arith, select_rest p xs)

  perm-singleton : (zs : List A) (t : A) → Permᴰ zs (t ∷ []) → zs ≡ t ∷ []
  perm-singleton [] t d = absurd (omega (arith, length-perm d))
  perm-singleton (z ∷ []) t d = elim (mem-perm d (head refl)) [
    | head e ↦ ap (λ a. a ∷ []) e
    | tail m ↦ elim m [ ]
  ]
  perm-singleton (y ∷ z ∷ zs) t d = absurd (omega (arith, length-perm d))

module _ {A : Type 0} (id : A → ℕ) where
  -- The rows with these ids first, in the order of the ids.
  abbrev in_places : List ℕ → List A → List A
  in_places [] xs = xs
  in_places (i ∷ ids) xs =
      select (λ a. id a == i) xs ++ in_places ids (select (λ a. not (id a == i)) xs)

  in_places-perm : (ids : List ℕ) (xs : List A) → Permᴰ xs (in_places ids xs)
  in_places-perm [] xs = Perm.refl xs
  in_places-perm (i ∷ ids) xs = Perm.trans (select-perm (λ a. id a == i) xs) (
      Perm.append_left (select (λ a. id a == i) xs)
        (in_places-perm ids (select (λ a. not (id a == i)) xs)))

  -- Rows with different ids come back in their old order.
  in_places-eq : (ts xs : List A) → Unique id ts → Permᴰ xs ts → in_places (map id ts) xs ≡ ts
  in_places-eq [] [] u d = refl
  in_places-eq [] (x ∷ xs) u d = absurd (omega (arith, length-perm d))
  in_places-eq (t ∷ ts) xs u d =
      let p : A → Bool = λ a. id a == id t in
      let self : (id t == id t) ≡ true = (==_iff (id t) (id t)).1 refl in
      let once : count_if p ts ≡ 0 = ground (arith, u (id t), self) in
      let one : select p xs ≡ t ∷ [] =
        perm-singleton (select p xs) t (rw (self, select_none p ts once) at (perm-select p d)) in
      let rest : Permᴰ (select (λ a. not (p a)) xs) ts =
        rw (self, select_rest p ts once) at (perm-select (λ a. not (p a)) d) in
      ap (λ zs. zs ++ in_places (map id ts) (select (λ a. not (p a)) xs)) one
      ∙ ap (λ zs. t ∷ zs)
          (in_places-eq ts (select (λ a. not (p a)) xs) (λ i. omega (arith, u i)) rest)

  -- Of two orders of these rows, the sort sees the same.
  pub pinned : {key : A → ℕ} → OrderBy A key → List ℕ → OrderBy A key
  pinned o ids = record {
    sort = λ xs. o.sort (in_places ids xs);
    sort-perm = λ xs. Perm.trans (in_places-perm ids xs) (o.sort-perm (in_places ids xs));
    sort-IsSorted = λ xs. o.sort-IsSorted (in_places ids xs);
  }

  pub pinned-sort :
      {key : A → ℕ} (o : OrderBy A key) (ts xs : List A)
      → Unique id ts
      → Permᴰ xs ts
      → (pinned o (map id ts)).sort xs ≡ o.sort ts
  unfolding pinned
  pinned-sort o ts xs u d = ap o.sort (in_places-eq ts xs u d)
