-- ===== src/Claim/Picked.antt =====
-- The rows with the keys of a part of the table are that part: what `WHERE id IN (…)` relies on.
use mathlib.Core.List.Memᴰ.{head, tail}
use mathlib.Core.List.Permᴰ as Perm
use mathlib.Core.List.{append-nil}
use skip_locked.Prelude.{
  ℕ, ◌≤◌, ◌≡◌, refl, sym, ◌∙◌, List, [], ◌∷◌, ◌++◌, Bool, true, false, ◌==◌, ==_iff, ◌&&◌, contains,
  map, count_if, count_if-append, count_if-perm, arith, Memᴰ, Permᴰ, Bool-cases, inl, inr,
  count_if-pos_of_mem, select, not, ap, subst, take, drop, take-append-drop, append_assoc,
  perm-select, select-append,
}

module _ {A : Type 0} (key : A → ℕ) where
  abbrev pub Unique : List A → Type 0
  Unique xs = (i : ℕ) → count_if (λ a. key a == i) xs ≤ 1

  abbrev pub with_key : List A → A → Bool
  with_key qs a = contains (map key qs) (key a)

  pub with_key_of_mem : {a : A} (qs : List A) → Memᴰ a qs → with_key qs a ≡ true
  with_key_of_mem [] m = elim m [ ]
  with_key_of_mem (q ∷ qs) (head e) = rw e (ground arith)
  with_key_of_mem {a} (q ∷ qs) (tail m) = ground (arith, with_key_of_mem qs m)

  -- A key of the part belongs to a row of the part.
  pub contains-pos :
      (qs : List A) (i : ℕ) → contains (map key qs) i ≡ true → 1 ≤ count_if (λ a. key a == i) qs
  contains-pos [] i h = cc
  contains-pos (q ∷ qs) i h = ground (arith, contains-pos qs i)

  count_if_congr :
      (p q : A → Bool) (xs : List A)
      → ((a : A) → Memᴰ a xs → p a ≡ q a)
      → count_if p xs ≡ count_if q xs
  count_if_congr p q [] h = refl
  count_if_congr p q (x ∷ xs) h = rw (h x (head refl), count_if_congr p q xs (λ a m. h a (tail m)))

  count_if-false : (xs : List A) → count_if (λ a. false) xs ≡ 0
  count_if-false [] = refl
  count_if-false (x ∷ xs) = omega (arith, count_if-false xs)

  module _ {rs : List A} (qs rest : List A) (split : Permᴰ rs (qs ++ rest)) (u : Unique rs) where
    not_with_key : {a : A} → Memᴰ a rest → with_key qs a ≡ false
    not_with_key {a} m = elim (Bool-cases (with_key qs a)) [
      | inr f ↦ f
      | inl t ↦ absurd (
          omega (
            arith,
            u (key a),
            count_if-perm (λ b. key b == key a) split,
            count_if-append (λ b. key b == key a) qs rest,
            contains-pos qs (key a) t,
            count_if-pos_of_mem (λ b. key b == key a) rest m ((==_iff (key a) (key a)).1 refl),
          ))
    ]

    -- Among the rows with a key of the part, as many pass a test as in the part.
    pub count_if-with_key : (p : A → Bool) → count_if (λ a. p a && with_key qs a) rs ≡ count_if p qs
    count_if-with_key p = omega (
      arith,
      count_if-perm (λ a. p a && with_key qs a) split,
      count_if-append (λ a. p a && with_key qs a) qs rest,
      count_if_congr (λ a. p a && with_key qs a) p qs (λ a m. ground (arith, with_key_of_mem qs m)),
      count_if_congr (λ a. p a && with_key qs a) (λ a. false) rest
          (λ a m. ground (arith, not_with_key m)),
      count_if-false rest,
    )

    select_with_all :
        (xs : List A) → ((a : A) → Memᴰ a xs → with_key qs a ≡ true) → select (with_key qs) xs ≡ xs
    select_with_all [] h = refl
    select_with_all (x ∷ xs) h = rw (h x (head refl), select_with_all xs (λ a m. h a (tail m))) refl

    select_with_none :
        (xs : List A) → ((a : A) → Memᴰ a xs → with_key qs a ≡ false) → select (with_key qs) xs ≡ []
    select_with_none [] h = refl
    select_with_none (x ∷ xs) h = rw (h x (head refl)) (select_with_none xs (λ a m. h a (tail m)))

    -- The rows with a key of the part are the part, in another order.
    pub perm-with_key : Permᴰ (select (with_key qs) rs) qs
    perm-with_key =
        subst (Permᴰ (select (with_key qs) rs))
          (select-append (with_key qs) qs rest
            ∙ ap (λ zs. zs ++ select (with_key qs) rest)
                (select_with_all qs (λ a m. with_key_of_mem qs m))
            ∙ ap (λ zs. qs ++ zs) (select_with_none rest (λ a m. not_with_key m))
            ∙ append-nil qs)
          (perm-select (with_key qs) split)

  pub mem_of-contains :
      (qs : List A) (i : ℕ) → contains (map key qs) i ≡ true → (q : A) × Memᴰ q qs × (key q ≡ i)
  mem_of-contains [] i h = cc
  mem_of-contains (q ∷ qs) i h = elim (Bool-cases (key q == i)) [
    | inl t ↦ (q, head refl, (==_iff (key q) i).0 t)
    | inr f ↦
        let h' : contains (map key qs) i ≡ true = rw f at h in
        let (a, m, e) = mem_of-contains qs i h' in (a, tail m, e)
  ]

-- A list and its two parts by a test.
pub select-perm :
    {A : Type 0} (p : A → Bool) (xs : List A) → Permᴰ xs (select p xs ++ select (λ a. not (p a)) xs)
select-perm p [] = Perm.nil
select-perm p (x ∷ xs) = elim (Bool-cases (p x)) [
  | inl t ↦ rw t (Perm.cons refl (select-perm p xs))
  | inr f ↦ rw f (
      Perm.trans (Perm.cons refl (select-perm p xs))
        (Perm.symm (Perm.middle x (select p xs) (select (λ a. not (p a)) xs))))
]

-- A list, and the first `k` of what passes a test, in another order.
pub window-perm :
    {A : Type 0} (p : A → Bool) (k : ℕ) (xs ys : List A)
    → Permᴰ (select p xs) ys
    → Permᴰ xs (take k ys ++ (drop k ys ++ select (λ a. not (p a)) xs))
window-perm p k xs ys d =
    let others = select (λ a. not (p a)) xs in
    Perm.trans (select-perm p xs) (
      subst (Permᴰ (select p xs ++ others))
        (ap (λ zs. zs ++ others) (sym (take-append-drop k ys))
          ∙ append_assoc (take k ys) (drop k ys) others)
        (Perm.append_right others d))
