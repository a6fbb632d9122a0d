-- ===== src/Claim/Fair/Rank.antt =====
-- The candidates that rank within the cap.
use mathlib.Core.List.Memᴰ.{head, tail}
use mathlib.Core.List.Permᴰ as Perm
use skip_locked.Prelude.{
  ℕ, suc, ◌+◌, ◌≡◌, refl, List, [], ◌∷◌, ◌++◌, Bool, true, Option, String, Permᴰ, if◌then◌else◌,
  map, count_if, arith, min, leb, inl, inr, Bool-cases, some, none, eq_iff, eq_refl, Memᴰ, ◌≤◌,
}
use skip_locked.Prelude.Int.{ℤ, pos, negsuc, leb_ℤ}
use skip_locked.Claim.Fair.{Candidate, same_carrier, row_numbers, within_cap}

-- A negative cap lets nothing through.
abbrev pub size_of : ℤ → ℕ
size_of (pos n) = n
size_of (negsuc n) = 0

abbrev pub of_carrier : Option String → Candidate → Bool
of_carrier c d = same_carrier d.carrier_id c

abbrev pub ranks : ℤ → List Candidate → Candidate → Bool
ranks tenant_cap seen c = leb_ℤ (pos (suc (count_if (of_carrier c.carrier_id) seen))) tenant_cap

pub kept : ℤ → List Candidate → List Candidate → List Candidate
kept tenant_cap seen [] = []
kept tenant_cap seen (c ∷ cs) =
    let rest = kept tenant_cap (c ∷ seen) cs in if ranks tenant_cap seen c then c ∷ rest else rest

pub dropped_out : ℤ → List Candidate → List Candidate → List Candidate
dropped_out tenant_cap seen [] = []
dropped_out tenant_cap seen (c ∷ cs) =
    let rest = dropped_out tenant_cap (c ∷ seen) cs in
    if ranks tenant_cap seen c then rest else c ∷ rest

pub within_cap-row_numbers :
    (tenant_cap : ℤ) (seen cs : List Candidate)
    → within_cap tenant_cap (row_numbers seen cs) ≡ map (λ c. c.id) (kept tenant_cap seen cs)
unfolding row_numbers kept
within_cap-row_numbers tenant_cap seen [] = refl
within_cap-row_numbers tenant_cap seen (c ∷ cs) =
    ground (arith, within_cap-row_numbers tenant_cap (c ∷ seen) cs)

pub kept-perm :
    (tenant_cap : ℤ) (seen cs : List Candidate)
    → Permᴰ cs (kept tenant_cap seen cs ++ dropped_out tenant_cap seen cs)
unfolding kept dropped_out
kept-perm tenant_cap seen [] = Perm.nil
kept-perm tenant_cap seen (c ∷ cs) = elim (Bool-cases (ranks tenant_cap seen c)) [
  | inl t ↦ rw t (Perm.cons refl (kept-perm tenant_cap (c ∷ seen) cs))
  | inr f ↦ rw f (
      Perm.trans (Perm.cons refl (kept-perm tenant_cap (c ∷ seen) cs)) (
        Perm.symm
          (Perm.middle c (kept tenant_cap (c ∷ seen) cs) (dropped_out tenant_cap (c ∷ seen) cs))))
]

pub same_carrier_eq : (c d : Option String) → same_carrier c d ≡ true → c ≡ d
same_carrier_eq none none h = refl
same_carrier_eq none (some d) h = cc
same_carrier_eq (some c) none h = cc
same_carrier_eq (some c) (some d) h = ground (arith, eq_iff c d)

same_carrier_refl : (c : Option String) → same_carrier c c ≡ true
same_carrier_refl none = refl
same_carrier_refl (some c) = eq_refl c

leb_ℤ-size_of :
    (m : ℕ) (tenant_cap : ℤ) → leb_ℤ (pos (suc m)) tenant_cap ≡ leb (suc m) (size_of tenant_cap)
leb_ℤ-size_of m (pos n) = refl
leb_ℤ-size_of m (negsuc n) = ground arith

-- Of each carrier as many are kept as the cap allows, and no fewer.
pub count_if-kept :
    (c : Option String) (tenant_cap : ℤ) (seen cs : List Candidate)
    → count_if (of_carrier c) (kept tenant_cap seen cs)
        + min (size_of tenant_cap) (count_if (of_carrier c) seen)
      ≡ min (size_of tenant_cap) (count_if (of_carrier c) seen + count_if (of_carrier c) cs)
unfolding kept
count_if-kept c tenant_cap seen [] = omega arith
count_if-kept c tenant_cap seen (d ∷ cs) = elim (Bool-cases (of_carrier c d)) [
  | inl t ↦
      let e : d.carrier_id ≡ c = same_carrier_eq d.carrier_id c t in
      let m = count_if (of_carrier c) seen in
      let same : ranks tenant_cap seen d ≡ leb (suc m) (size_of tenant_cap) =
        rw e (leb_ℤ-size_of m tenant_cap) in
      ground (arith, t, same, count_if-kept c tenant_cap (d ∷ seen) cs)
  | inr f ↦ ground (arith, f, count_if-kept c tenant_cap (d ∷ seen) cs)
]

pub mem_of-kept :
    (tenant_cap : ℤ) (seen cs : List Candidate) {c : Candidate}
    → Memᴰ c (kept tenant_cap seen cs)
    → Memᴰ c cs
unfolding kept
mem_of-kept tenant_cap seen [] m = m
mem_of-kept tenant_cap seen (d ∷ cs) {c} m = elim (Bool-cases (ranks tenant_cap seen d)) [
  | inl t ↦
      let m' : Memᴰ c (d ∷ kept tenant_cap (d ∷ seen) cs) = rw t at m in
      elim m' [ head e ↦ head e | tail h ↦ tail (mem_of-kept tenant_cap (d ∷ seen) cs h) ]
  | inr f ↦
      let m' : Memᴰ c (kept tenant_cap (d ∷ seen) cs) = rw f at m in
      tail (mem_of-kept tenant_cap (d ∷ seen) cs m')
]

-- Where no carrier has more candidates than the cap, all are kept.
pub kept_all :
    (tenant_cap : ℤ) (seen cs : List Candidate)
    → ((c : Option String)
        → count_if (of_carrier c) seen + count_if (of_carrier c) cs ≤ size_of tenant_cap)
    → kept tenant_cap seen cs ≡ cs
unfolding kept
kept_all tenant_cap seen [] h = refl
kept_all tenant_cap seen (d ∷ cs) h =
    let m = count_if (of_carrier d.carrier_id) seen in
    let rest : kept tenant_cap (d ∷ seen) cs ≡ cs =
      kept_all tenant_cap (d ∷ seen) cs (λ c. omega (arith, h c)) in
    let t : ranks tenant_cap seen d ≡ true =
      ground (arith, leb_ℤ-size_of m tenant_cap, h d.carrier_id, same_carrier_refl d.carrier_id) in
    rw (t, rest)
