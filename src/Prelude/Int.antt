-- ===== src/Prelude/Int.antt =====
-- Signed integers over the native numbers, for the `i64` arguments of the source.
use skip_locked.Prelude.Tests.{leb, ltb}
use mathlib.Core.Bool.{Bool, true, false}
use Prim.Native.Nat.{ℕ, suc, ◌-◌, ◌*◌, ◌%◌, ◌^◌}
use skip_locked.Prelude.Tests.{if◌then◌else◌}

-- `negsuc n` is -(n + 1).
pub data ℤ : Type 0 where
  pos : ℕ → ℤ
  negsuc : ℕ → ℤ

-- `a ≤ b`.
abbrev pub leb_ℤ : ℤ → ℤ → Bool
leb_ℤ (pos a) (pos b) = leb a b
leb_ℤ (pos a) (negsuc b) = false
leb_ℤ (negsuc a) (pos b) = true
leb_ℤ (negsuc a) (negsuc b) = leb b a

-- `a * k` for a number `k` that is not 0.
abbrev pub scale : ℤ → ℕ → ℤ
scale (pos a) k = pos (a * k)
scale (negsuc a) k = negsuc (suc a * k - 1)

-- Whether a value is in the range of a 64-bit signed integer.
abbrev pub fits_i64 : ℤ → Bool
fits_i64 (pos a) = ltb a (2 ^ 63)
fits_i64 (negsuc a) = ltb a (2 ^ 63)

-- The cast `as i64` of an unsigned 64-bit integer.
abbrev pub as_i64 : ℕ → ℤ
as_i64 n = let m = n % 2 ^ 64 in if ltb m (2 ^ 63) then pos m else negsuc (2 ^ 64 - 1 - m)
