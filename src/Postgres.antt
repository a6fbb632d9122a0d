-- ===== src/Postgres.antt =====
-- What the source takes from Postgres and sqlx: errors, statements and round trips.
pub mod OrderBy
pub mod Pinned
pub mod Json
use skip_locked.Prelude.{◌≡◌, refl, ◌⊎◌, inl, inr}

-- `Io` is a round trip that failed (connection, timeout); the others are raised by a statement.
pub data Error : Type 0 where
  io : Error
  negative_limit : Error
  bigint_out_of_range : Error
  int_out_of_range : Error
  float_out_of_range : Error
  interval_out_of_range : Error
  timestamp_out_of_range : Error
  row_not_found : Error

-- `sqlx::Result`.
pub data Result (A : Type 0) : Type 0 where
  ok : A → Result A
  err : Error → Result A

infixl 5 ◌>>=◌
abbrev pub ◌>>=◌ : {A B : Type 0} → Result A → (A → Result B) → Result B
ok a >>= f = f a
err e >>= f = err e

abbrev pub IsErr : {A : Type 0} → Result A → Type 0
IsErr (ok a) = ⊥
IsErr (err e) = Unit

-- To split on a computed result and keep the equation.
pub Result-cases :
    {A : Type 0} (x : Result A) → ((a : A) × (x ≡ ok a)) ⊎ ((e : Error) × (x ≡ err e))
Result-cases (ok a) = inl (a, refl)
Result-cases (err e) = inr (e, refl)
