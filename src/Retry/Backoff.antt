-- ===== src/Retry/Backoff.antt =====
-- The delay between two attempts.
use skip_locked.Prelude.{ℕ, zero, suc, ◌*◌, ◌^◌, ◌≤◌, ◌≡◌, arith, min}
use native.Mathlib.Nat.{pow-suc}
use skip_locked.Retry.{backoff_secs}

pub pow-two-pos : (n : ℕ) → 1 ≤ 2 ^ n
pow-two-pos zero = omega arith
pow-two-pos (suc n) = rw pow-suc (omega (arith, pow-two-pos n))

-- The delay is at least a second and at most an hour, doubles with each attempt until the cap, and
-- stays there.
pub backoff_secs_lem :
    (n : ℕ)
    → (1 ≤ backoff_secs n)
      × (backoff_secs n ≤ 3600)
      × (backoff_secs (suc n) ≡ min (2 * backoff_secs n) 3600)
backoff_secs_lem n =
    (omega (arith, pow-two-pos n), omega arith, rw pow-suc (omega (arith, pow-two-pos n)))
