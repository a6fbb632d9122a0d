-- ===== src/Postgres/OrderBy.antt =====
-- `ORDER BY`: a permutation of the rows in ascending order of the key. Postgres does not say which
-- of two rows with equal keys comes first, so the order is an interface with these two laws.
use mathlib.Core.List.{Permᴰ, Memᴰ}
use mathlib.Core.List.Permᴰ.{nil, cons, swap, trans}
use mathlib.Core.List.Permᴰ as Perm
use mathlib.Core.List.Memᴰ.{head, tail}
use skip_locked.Prelude.{
  ℕ, zero, suc, ◌≤◌, refl, List, [], ◌∷◌, leb, leb→le, arith, ◌⊎◌, All, All-mem, mem-perm,
  Bool-cases, if◌then◌else◌, inl, inr, take,
}

module _ {A : Type 0} where
  abbrev pub IsSorted : (A → ℕ) → List A → Type 0
  IsSorted key [] = Unit
  IsSorted key (x ∷ xs) = All (λ y. key x ≤ key y) xs × IsSorted key xs

pub record OrderBy (A : Type 0) (key : A → ℕ) : Type 0 where
  pub sort : List A → List A
  pub sort-perm : (xs : List A) → Permᴰ xs (sort xs)
  pub sort-IsSorted : (xs : List A) → IsSorted key (sort xs)

-- Insertion sort shows that the laws can be met; ties keep the order of the table.
module _ {A : Type 0} (key : A → ℕ) where
  insert : A → List A → List A
  insert a [] = a ∷ []
  insert a (x ∷ xs) = let rest = insert a xs in if leb (key a) (key x) then a ∷ x ∷ xs else x ∷ rest

  unfoldable pub insertion_sort : List A → List A
  unfolding insert
  insertion_sort [] = []
  insertion_sort (x ∷ xs) = insert x (insertion_sort xs)

  insert-perm : (a : A) (xs : List A) → Permᴰ (a ∷ xs) (insert a xs)
  unfolding insert
  insert-perm a [] = Perm.refl (a ∷ [])
  insert-perm a (x ∷ xs) = elim (Bool-cases (leb (key a) (key x))) [
    | inl t ↦ rw t (Perm.refl (a ∷ x ∷ xs))
    | inr f ↦ rw f (trans (swap refl refl) (cons refl (insert-perm a xs)))
  ]

  pub insertion_sort-perm : (xs : List A) → Permᴰ xs (insertion_sort xs)
  unfolding insertion_sort
  insertion_sort-perm [] = nil
  insertion_sort-perm (x ∷ xs) =
      trans (cons refl (insertion_sort-perm xs)) (insert-perm x (insertion_sort xs))

  insert-All :
      (k : ℕ) (a : A) (xs : List A)
      → k ≤ key a
      → All (λ y. k ≤ key y) xs
      → All (λ y. k ≤ key y) (insert a xs)
  unfolding insert
  insert-All k a [] h hs = (h, tt)
  insert-All k a (x ∷ xs) h hs = elim (Bool-cases (leb (key a) (key x))) [
    | inl t ↦ rw t (h, hs)
    | inr f ↦ rw f (hs.0, insert-All k a xs h hs.1)
  ]

  All-weaken : (j k : ℕ) (xs : List A) → j ≤ k → All (λ y. k ≤ key y) xs → All (λ y. j ≤ key y) xs
  All-weaken j k [] h hs = tt
  All-weaken j k (x ∷ xs) h hs = (omega arith, All-weaken j k xs h hs.1)

  insert-IsSorted : (a : A) (xs : List A) → IsSorted key xs → IsSorted key (insert a xs)
  unfolding insert
  insert-IsSorted a [] s = (tt, tt)
  insert-IsSorted a (x ∷ xs) s = elim (Bool-cases (leb (key a) (key x))) [
    | inl t ↦
        let le : key a ≤ key x = leb→le _ _ t in
        rw t ((le, All-weaken (key a) (key x) xs le s.0), s)
    | inr f ↦ rw f (insert-All (key x) a xs (ground arith) s.0, insert-IsSorted a xs s.1)
  ]

  pub insertion_sort-IsSorted : (xs : List A) → IsSorted key (insertion_sort xs)
  unfolding insertion_sort
  insertion_sort-IsSorted [] = tt
  insertion_sort-IsSorted (x ∷ xs) =
      insert-IsSorted x (insertion_sort xs) (insertion_sort-IsSorted xs)

  abbrev pub stable_order : OrderBy A key
  stable_order = record {
    sort = insertion_sort;
    sort-perm = insertion_sort-perm;
    sort-IsSorted = insertion_sort-IsSorted;
  }

module _ {A : Type 0} {key : A → ℕ} (o : OrderBy A key) where
  pub mem-sort : {a : A} (xs : List A) → Memᴰ a xs → Memᴰ a (o.sort xs)
  mem-sort xs = mem-perm (o.sort-perm xs)

  pub mem_of-sort : {a : A} (xs : List A) → Memᴰ a (o.sort xs) → Memᴰ a xs
  mem_of-sort xs = mem-perm (Perm.symm (o.sort-perm xs))

-- What `LIMIT n` takes of a sorted list is no later than what it leaves.
pub IsSorted-take :
    {A : Type 0} {a : A} (key : A → ℕ) (n : ℕ) (xs : List A)
    → IsSorted key xs
    → Memᴰ a xs
    → Memᴰ a (take n xs) ⊎ All (λ y. key y ≤ key a) (take n xs)
IsSorted-take key zero xs s m = inr tt
IsSorted-take key (suc n) [] s m = elim m [ ]
IsSorted-take key (suc n) (x ∷ xs) s (head e) = inl (head e)
IsSorted-take {a} key (suc n) (x ∷ xs) s (tail m) = elim (IsSorted-take key n xs s.1 m) [
  | inl t ↦ inl (tail t)
  | inr h ↦ inr (All-mem (λ y. key x ≤ key y) xs s.0 m, h)
]
