-- ===== src/Claim/Same.antt =====
-- The UPDATE of a claim depends only on which rows of the table have one of the ids.
use mathlib.Core.List.Memᴰ.{head, tail}
use skip_locked.Prelude.{ℕ, ◌≡◌, refl, List, [], ◌∷◌, String, Memᴰ, contains, any, select}
use skip_locked.Jobs.{Row, Db}
use skip_locked.Jobs.Update.{update_where}
use skip_locked.Claim.{claimed_row, update_claimed, overflows}

module _ {P : Type 0} where
  -- Only which rows of the table have one of the ids counts.
  abbrev pub Same : List ℕ → List ℕ → List (Row P) → Type 0
  Same ids ids' rs = (r : Row P) → Memᴰ r rs → contains ids r.id ≡ contains ids' r.id

  module _ (ids ids' : List ℕ) where
    any-Same :
        (rs : List (Row P)) → Same ids ids' rs → any (overflows ids) rs ≡ any (overflows ids') rs
    any-Same [] h = refl
    any-Same (r ∷ rs) h = rw (h r (head refl), any-Same rs (λ s m. h s (tail m)))

    update-Same :
        (g : Row P → Row P) (rs : List (Row P))
        → Same ids ids' rs
        → update_where (λ r. contains ids r.id) g rs ≡ update_where (λ r. contains ids' r.id) g rs
    update-Same g [] h = refl
    update-Same g (r ∷ rs) h = rw (h r (head refl), update-Same g rs (λ s m. h s (tail m)))

    select-Same :
        (rs : List (Row P))
        → Same ids ids' rs
        → select (λ r. contains ids r.id) rs ≡ select (λ r. contains ids' r.id) rs
    select-Same [] h = refl
    select-Same (r ∷ rs) h = rw (h r (head refl), select-Same rs (λ s m. h s (tail m)))

    pub update_claimed-Same :
        (worker : String) (now : ℕ) (db : Db P)
        → Same ids ids' db.jobs
        → update_claimed ids worker now db ≡ update_claimed ids' worker now db
    unfolding update_claimed
    update_claimed-Same worker now db h =
        rw (
          any-Same db.jobs h,
          update-Same (claimed_row now worker) db.jobs h,
          select-Same db.jobs h,
        )
