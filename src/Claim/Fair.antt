-- ===== src/Claim/Fair.antt =====
-- src/claim.rs: `fair_claim`.
pub mod Rank
pub mod Winners
pub mod Cap
pub mod Window
pub mod Plain
use skip_locked.Prelude.{
  ℕ, zero, suc, ◌+◌, List, [], ◌∷◌, Bool, true, false, Option, none, some, String, str_eq,
  if◌then◌else◌, select, map, count_if,
}
use skip_locked.Prelude.Int.{ℤ, pos, scale, fits_i64, leb_ℤ}
use skip_locked.Postgres.{Result, ok, err, bigint_out_of_range, ◌>>=◌}
use skip_locked.Postgres.OrderBy.{OrderBy}
use skip_locked.Postgres.Json.{Json}
use skip_locked.Jobs.{Row, Db, Job}
use skip_locked.Session.{Stmt, M, execute}
use skip_locked.Claim.{limit, lock_rows, update_claimed}

-- A row of the CTE `locked`.
pub record Candidate : Type 0 where
  pub id : ℕ
  pub run_at : ℕ
  pub carrier_id : Option String

-- `PARTITION BY carrier_id`: the nulls are one partition.
abbrev pub same_carrier : Option String → Option String → Bool
same_carrier none none = true
same_carrier none (some d) = false
same_carrier (some c) none = false
same_carrier (some c) (some d) = str_eq c d

-- `row_number()` of each candidate within its partition; `seen` are the candidates before it.
unfoldable pub row_numbers : List Candidate → List Candidate → List (ℕ × ℕ)
row_numbers seen [] = []
row_numbers seen (c ∷ cs) =
    (c.id, suc (count_if (λ d. same_carrier d.carrier_id c.carrier_id) seen))
    ∷ row_numbers (c ∷ seen) cs

-- `SELECT id FROM ranked WHERE rn <= $4`.
abbrev pub within_cap : ℤ → List (ℕ × ℕ) → List ℕ
within_cap tenant_cap ranked = map (λ r. r.0) (select (λ r. leb_ℤ (pos r.1) tenant_cap) ranked)

-- `$2 * 4`, which raises out of the range of a `bigint`.
abbrev pub times_four : ℤ → Result ℤ
times_four n = let m = scale n 4 in if fits_i64 m then ok m else err bigint_out_of_range

module _ {P : Type 0} (json : Json P) where
  -- `payload->>'carrier_id'`.
  abbrev pub carrier_of : P → Option String
  carrier_of p = json.arrow_text p "carrier_id"

  -- `SELECT id, run_at, payload->>'carrier_id' AS carrier_id`.
  abbrev pub candidate : Row P → Candidate
  candidate r = record { id = r.id; run_at = r.run_at; carrier_id = carrier_of r.payload }

module _ {P : Type 0} (json : Json P) (by_run_at : OrderBy (Row P) (λ r. r.run_at))
    (window : OrderBy Candidate (λ c. c.run_at)) (held : ℕ → Bool) where
  -- The ids that the CTEs leave of a window of `k` rows.
  unfoldable pub fair_ids : List String → ℕ → ℤ → ℕ → Db P → List ℕ
  unfolding lock_rows row_numbers
  fair_ids kinds k tenant_cap now db =
      let locked = map (candidate json) (lock_rows by_run_at held kinds k now db) in
      within_cap tenant_cap (row_numbers [] (window.sort locked))

  unfoldable pub fair_claim_sql : List String → ℤ → ℤ → String → Stmt P (List (Job P))
  unfolding fair_ids update_claimed
  fair_claim_sql kinds size tenant_cap worker now db = times_four size >>= λ n.
      limit n >>= λ k. update_claimed (fair_ids kinds k tenant_cap now db) worker now db

  unfoldable pub fair_claim : List String → ℤ → ℤ → String → M P (List (Job P))
  unfolding execute fair_claim_sql
  fair_claim kinds size tenant_cap worker = execute (fair_claim_sql kinds size tenant_cap worker)
