-- ===== src/Queue/Lawful.antt =====
-- What holds of every row of `jobs` and of the keys, and how the statements' SET lists keep it.
use skip_locked.Prelude.{
  ℕ, ◌≤◌, ◌<◌, ◌≡◌, ◌≢◌, List, Bool, true, false, Option, none, some, String, arith, All, ltb,
}
use skip_locked.Jobs.{Row, Db, ready, dead, is_running}
use skip_locked.Jobs.Find.{Below}
use skip_locked.Enqueue.{new_row, done_row}
use skip_locked.Claim.{claimable, claimed_row}
use skip_locked.Lease.{beaten, released, holds}
use skip_locked.Retry.{requeued, max_exponent}

abbrev pub is_some : {A : Type 0} → Option A → Bool
is_some none = false
is_some (some a) = true

-- A job is locked exactly while it runs; no attempt beyond the last is counted, and one that is
-- ready has an attempt left; a dead job is not in the table.
pub record IsLawful {P : Type 0} (r : Row P) : Type 0 where
  pub unlocked : is_running r.state ≡ false → (r.locked_at ≡ none) × (r.locked_by ≡ none)
  pub leased :
      is_running r.state ≡ true → (is_some r.locked_at ≡ true) × (is_some r.locked_by ≡ true)
  pub spare : r.state ≡ ready → r.attempts < r.max_attempts
  pub bounded : r.attempts ≤ r.max_attempts
  pub alive : r.state ≢ dead
  pub modest : r.max_attempts < max_exponent

pub record Inv {P : Type 0} (db : Db P) : Type 0 where
  pub fresh : Below db.next_id db.jobs
  pub lawful : All IsLawful db.jobs

module _ {P : Type 0} where
  pub new_row-IsLawful :
      (id : ℕ) (kind : String) (payload : P) (run_at : ℕ)
      → IsLawful (new_row id kind payload run_at)
  new_row-IsLawful id kind payload run_at = ground arith

  pub claimed_row-IsLawful :
      (now : ℕ) (kinds : List String) (worker : String) (r : Row P)
      → IsLawful r
      → claimable now kinds r ≡ true
      → IsLawful (claimed_row now worker r)
  claimed_row-IsLawful now kinds worker r v h = ground arith

  pub done_row-IsLawful : (r : Row P) → IsLawful r → IsLawful (done_row r)
  done_row-IsLawful r v = ground arith

  pub beaten-IsLawful :
      (now : ℕ) (ids : List ℕ) (worker : String) (r : Row P)
      → IsLawful r
      → holds ids worker r ≡ true
      → IsLawful (beaten now r)
  beaten-IsLawful now ids worker r v h = ground arith

  pub released-IsLawful :
      (r : Row P) → IsLawful r → ltb r.attempts r.max_attempts ≡ true → IsLawful (released r)
  released-IsLawful r v h = ground arith

  pub requeued-IsLawful :
      (error : String) (now : ℕ) (r : Row P)
      → IsLawful r
      → ltb r.attempts r.max_attempts ≡ true
      → IsLawful (requeued error now r)
  requeued-IsLawful error now r v h = ground arith
