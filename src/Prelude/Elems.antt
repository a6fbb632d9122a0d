-- ===== src/Prelude/Elems.antt =====
-- Membership and "all elements" by recursion into a universe: what they hold can be taken apart
-- into data, which the library's truncated membership does not allow.
use Prim.Native.Nat.{ℕ, zero, suc, ◌≤◌}
use mathlib.Core.Path.{◌≡◌, refl, ap, ◌∙◌}
use mathlib.Core.Logic.{inl, inr}
use mathlib.Core.Bool.{Bool, true}
use mathlib.Core.List.{List, [], ◌∷◌, ◌++◌, map, Permᴰ, Memᴰ}
use mathlib.Core.List.Permᴰ as Perm
use mathlib.Core.List.Memᴰ.{head, tail}
use mathlib.Core.List.Permᴰ.{nil, cons, swap, trans}
use native.Mathlib.Omega.{arith}
use skip_locked.Prelude.Tests.{Bool-cases}
use skip_locked.Prelude.Lists.{length, take, select, count_if}

module _ {A : Type 0} where
  abbrev pub All : (A → Type 0) → List A → Type 0
  All P [] = Unit
  All P (x ∷ xs) = P x × All P xs

  pub All-mem : (P : A → Type 0) {a : A} (xs : List A) → All P xs → Memᴰ a xs → P a
  All-mem P [] h e = elim e [ ]
  All-mem P (x ∷ xs) h (head e) = rw e h.0
  All-mem P (x ∷ xs) h (tail e) = All-mem P xs h.1 e

  pub All-intro : (P : A → Type 0) (xs : List A) → ((a : A) → Memᴰ a xs → P a) → All P xs
  All-intro P [] h = tt
  All-intro P (x ∷ xs) h = (h x (head refl), All-intro P xs (λ a e. h a (tail e)))

  pub mem_of-take : {a : A} (n : ℕ) (xs : List A) → Memᴰ a (take n xs) → Memᴰ a xs
  mem_of-take zero xs e = elim e [ ]
  mem_of-take (suc n) [] e = elim e [ ]
  mem_of-take (suc n) (x ∷ xs) (head e) = head e
  mem_of-take (suc n) (x ∷ xs) (tail e) = tail (mem_of-take n xs e)

  pub mem_of-select :
      {a : A} (p : A → Bool) (xs : List A) → Memᴰ a (select p xs) → Memᴰ a xs × (p a ≡ true)
  mem_of-select p [] e = elim e [ ]
  mem_of-select {a} p (x ∷ xs) e = elim (Bool-cases (p x)) [
    | inl t ↦
        let e' : Memᴰ a (x ∷ select p xs) = rw t at e in
        elim e' [
          | head q ↦ (head q, rw q t)
          | tail r ↦ let (m, h) = mem_of-select p xs r in (tail m, h)
        ]
    | inr f ↦
        let e' : Memᴰ a (select p xs) = rw f at e in
        let (m, h) = mem_of-select p xs e' in (tail m, h)
  ]

  pub mem-select :
      {a : A} (p : A → Bool) (xs : List A) → Memᴰ a xs → p a ≡ true → Memᴰ a (select p xs)
  mem-select p [] e h = elim e [ ]
  mem-select {a} p (x ∷ xs) (head e) h = let t : p x ≡ true = rw (← e) h in rw t (head e)
  mem-select {a} p (x ∷ xs) (tail e) h = elim (Bool-cases (p x)) [
    | inl t ↦ rw t (tail (mem-select p xs e h))
    | inr f ↦ rw f (mem-select p xs e h)
  ]

  pub mem-perm : {a : A} {xs ys : List A} → Permᴰ xs ys → Memᴰ a xs → Memᴰ a ys
  mem-perm nil e = e
  mem-perm (cons q d) (head e) = head (e ∙ q)
  mem-perm (cons q d) (tail e) = tail (mem-perm d e)
  mem-perm (swap q r) (head e) = tail (head (e ∙ q))
  mem-perm (swap q r) (tail (head e)) = head (e ∙ r)
  mem-perm (swap q r) (tail (tail e)) = tail (tail e)
  mem-perm (trans d d') e = mem-perm d' (mem-perm d e)

  pub length-perm : {xs ys : List A} → Permᴰ xs ys → length xs ≡ length ys
  length-perm nil = refl
  length-perm (cons q d) = ap suc (length-perm d)
  length-perm (swap q r) = refl
  length-perm (trans d d') = length-perm d ∙ length-perm d'

  pub count_if-perm : (p : A → Bool) {xs ys : List A} → Permᴰ xs ys → count_if p xs ≡ count_if p ys
  count_if-perm p nil = refl
  count_if-perm p (cons q d) = rw (q, count_if-perm p d)
  count_if-perm p (swap {l = l} q r) = rw (q, r) (omega arith)
  count_if-perm p (trans d d') = count_if-perm p d ∙ count_if-perm p d'

  pub count_if-pos_of_mem :
      {a : A} (p : A → Bool) (xs : List A) → Memᴰ a xs → p a ≡ true → 1 ≤ count_if p xs
  count_if-pos_of_mem p [] e h = elim e [ ]
  count_if-pos_of_mem p (x ∷ xs) (head e) h = let t : p x ≡ true = rw (← e) h in rw t (omega arith)
  count_if-pos_of_mem p (x ∷ xs) (tail e) h = omega (arith, count_if-pos_of_mem p xs e h)

  pub perm-select :
      (p : A → Bool) {xs ys : List A} → Permᴰ xs ys → Permᴰ (select p xs) (select p ys)
  perm-select p nil = nil
  perm-select p (cons {a = x} q d) = elim (Bool-cases (p x)) [
    | inl t ↦ rw (← q, t) (cons refl (perm-select p d))
    | inr f ↦ rw (← q, f) (perm-select p d)
  ]
  perm-select p (swap {a = x} {b = y} {l = l} q r) = elim (Bool-cases (p x)) [
    | inl t ↦ elim (Bool-cases (p y)) [
      | inl u ↦ rw (← q, ← r, t, u) (swap refl refl)
      | inr u ↦ rw (← q, ← r, t, u) (Perm.refl (x ∷ select p l))
    ]
    | inr t ↦ elim (Bool-cases (p y)) [
      | inl u ↦ rw (← q, ← r, t, u) (Perm.refl (y ∷ select p l))
      | inr u ↦ rw (← q, ← r, t, u) (Perm.refl (select p l))
    ]
  ]
  perm-select p (trans d d') = trans (perm-select p d) (perm-select p d')

  pub select-append :
      (p : A → Bool) (xs ys : List A) → select p (xs ++ ys) ≡ select p xs ++ select p ys
  select-append p [] ys = refl
  select-append p (x ∷ xs) ys = elim (Bool-cases (p x)) [
    | inl t ↦ rw (t, select-append p xs ys) refl
    | inr f ↦ rw (f, select-append p xs ys) refl
  ]

pub mem_of-map :
    {A B : Type 0} {b : B} (f : A → B) (xs : List A)
    → Memᴰ b (map f xs)
    → (a : A) × Memᴰ a xs × (b ≡ f a)
mem_of-map f [] m = elim m [ ]
mem_of-map f (x ∷ xs) (head e) = (x, head refl, e)
mem_of-map f (x ∷ xs) (tail m) = let (a, h, e) = mem_of-map f xs m in (a, tail h, e)

pub mem-map : {A B : Type 0} {a : A} (f : A → B) (xs : List A) → Memᴰ a xs → Memᴰ (f a) (map f xs)
mem-map f [] m = elim m [ ]
mem-map f (x ∷ xs) (head e) = head (ap f e)
mem-map f (x ∷ xs) (tail m) = tail (mem-map f xs m)
