-- ===== src/Claim.antt =====
-- src/claim.rs: `claim_batch` and `fair_claim`.
pub mod Picked
pub mod Effect
pub mod Batch
pub mod Every
pub mod Same
pub mod Fair
use skip_locked.Prelude.{
  ℕ, zero, suc, ◌+◌, ◌-◌, ◌*◌, ◌^◌, List, [], ◌∷◌, Bool, true, false, Option, none, some, String,
  str_eq, leb, if◌then◌else◌, ◌&&◌, ◌||◌, not, any, select, take, map, contains, count_if,
}
use skip_locked.Prelude.Int.{ℤ, pos, negsuc, scale, fits_i64, leb_ℤ}
use skip_locked.Postgres.{
  Result, ok, err, negative_limit, bigint_out_of_range, int_out_of_range, ◌>>=◌,
}
use skip_locked.Postgres.OrderBy.{OrderBy}
use skip_locked.Jobs.{Row, Db, Job, running, is_ready, job_of}
use skip_locked.Jobs.Update.{update_where, returning}
use skip_locked.Session.{Stmt, M, execute}

-- The largest `int`.
abbrev pub max_int : ℕ
max_int = 2 ^ 31 - 1

-- `kind = ANY($2)`.
abbrev pub any_kind : List String → String → Bool
any_kind [] kind = false
any_kind (k ∷ ks) kind = str_eq kind k || any_kind ks kind

module _ {P : Type 0} where
  -- `state = 'ready' AND run_at <= now() AND kind = ANY($2)`.
  abbrev pub claimable : ℕ → List String → Row P → Bool
  claimable now kinds r = is_ready r.state && (leb r.run_at now && any_kind kinds r.kind)

  -- What `SKIP LOCKED` leaves of the claimable rows: those that no other transaction holds.
  abbrev pub free : (ℕ → Bool) → ℕ → List String → Row P → Bool
  free held now kinds r = claimable now kinds r && not (held r.id)

  -- `SET state = 'running', locked_at = now(), locked_by = $1, attempts = attempts + 1`.
  abbrev pub claimed_row : ℕ → String → Row P → Row P
  claimed_row now worker r = record r {
    state = running;
    locked_at = some now;
    locked_by = some worker;
    attempts = suc r.attempts;
  }

  abbrev pub overflows : List ℕ → Row P → Bool
  overflows ids r = contains ids r.id && leb max_int r.attempts

  -- The outer `UPDATE jobs … WHERE id IN (ids) RETURNING …`. Adding 1 to the largest `int` raises.
  unfoldable pub update_claimed : List ℕ → String → Stmt P (List (Job P))
  update_claimed ids worker now db =
      if any (overflows ids) db.jobs
      then err int_out_of_range
      else ok (
        map job_of (returning (λ r. contains ids r.id) (claimed_row now worker) db.jobs),
        record db { jobs = update_where (λ r. contains ids r.id) (claimed_row now worker) db.jobs },
      )

-- `LIMIT n`.
abbrev pub limit : ℤ → Result ℕ
limit (pos n) = ok n
limit (negsuc n) = err negative_limit

module _ {P : Type 0} (by_run_at : OrderBy (Row P) (λ r. r.run_at)) (held : ℕ → Bool) where
  -- `SELECT … WHERE … ORDER BY run_at FOR NO KEY UPDATE SKIP LOCKED LIMIT k`: the rows that it
  -- locks. Rows that are skipped do not count for the limit.
  unfoldable pub lock_rows : List String → ℕ → ℕ → Db P → List (Row P)
  lock_rows kinds k now db = take k (by_run_at.sort (select (free held now kinds) db.jobs))

  unfoldable pub claim_batch_sql : List String → ℤ → String → Stmt P (List (Job P))
  unfolding lock_rows update_claimed
  claim_batch_sql kinds n worker now db =
      limit n >>= λ k. update_claimed (map (λ r. r.id) (lock_rows kinds k now db)) worker now db

  unfoldable pub claim_batch : List String → ℤ → String → M P (List (Job P))
  unfolding execute claim_batch_sql
  claim_batch kinds n worker = execute (claim_batch_sql kinds n worker)
