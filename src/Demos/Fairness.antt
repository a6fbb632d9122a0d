-- ===== src/Demos/Fairness.antt =====
-- examples/demo_fairness.rs: `seed`, `tally` and `main`.
use Prim.Native.String.{◌++◌ as append}
use skip_locked.Prelude.{
  Bool, ℕ, zero, suc, ◌+◌, ◌-◌, ◌*◌, ◌≡◌, List, [], ◌∷◌, Option, some, none, String, str_eq,
  if◌then◌else◌, count_if, eq_iff, arith,
}
use skip_locked.Postgres.Json.{Json}
use skip_locked.Prelude.Int.{pos}
use skip_locked.Postgres.OrderBy.{OrderBy}
use skip_locked.Jobs.{Row, Job, second}
use skip_locked.Claim.{claim_batch}
use skip_locked.Claim.Fair.{Candidate, fair_claim}
use skip_locked.Session.{M, Tx, pure, ◌>>=◌, ◌>>◌, begin, commit, execute}
use skip_locked.Enqueue.{enqueue_at}
use skip_locked.Migration.Payloads.{decimal}
use skip_locked.Demos.{event_payload, truncate}

module _ {P : Type 0} (json : Json P) where
  -- A loop of enqueues for one carrier from turn `i` on, `count` turns: the events' prefix, the
  -- base time and the microseconds between two jobs.
  unfoldable pub seed_carrier : String → String → ℕ → ℕ → ℕ → ℕ → Tx P → M P (Tx P)
  unfolding enqueue_at
  seed_carrier carrier prefix base step zero i tx = pure tx
  seed_carrier carrier prefix base step (suc count) i tx =
      enqueue_at tx "webhook.normalize" (event_payload json carrier (append prefix (decimal 20 i)))
        (base + i * step)
      >>= λ x. seed_carrier carrier prefix base step count (suc i) (x.1)

  -- `now` is the client's clock, at least ten minutes.
  unfoldable pub seed : ℕ → M P (Unit {0})
  unfolding execute begin seed_carrier commit
  seed now = do
    execute truncate
    tx ← begin
    tx1 ← seed_carrier "A" "a" (now - 600 * second) second 500 0 tx
    tx2 ← seed_carrier "B" "B" (now - 600 * second) (20 * second) 5 0 tx1
    tx3 ← seed_carrier "C" "C" (now - 600 * second) (20 * second) 5 0 tx2
    commit tx3

  -- `as_str().unwrap_or("?")`.
  abbrev pub or_unknown : Option String → String
  or_unknown none = "?"
  or_unknown (some c) = c

  abbrev pub carrier_name : Job P → String
  carrier_name j = or_unknown (json.text_at j.payload "carrier_id")

-- `*m.entry(key).or_insert(0) += 1`; the map's order, which only the printing reads, is left out.
abbrev pub bump_entry : String → List (String × ℕ) → List (String × ℕ)
bump_entry key [] = (key, 1) ∷ []
bump_entry key ((k, n) ∷ m) =
    let rest = bump_entry key m in if str_eq k key then (k, suc n) ∷ m else (k, n) ∷ rest

-- `m.get(key).copied().unwrap_or(0)`.
abbrev pub entry : String → List (String × ℕ) → ℕ
entry key [] = 0
entry key ((k, n) ∷ m) = if str_eq k key then n else entry key m

abbrev pub tally_from : {P : Type 0} → Json P → List (Job P) → List (String × ℕ) → List (String × ℕ)
tally_from json [] m = m
tally_from json (j ∷ js) m = tally_from json js (bump_entry (carrier_name json j) m)

unfoldable pub tally : {P : Type 0} → Json P → List (Job P) → List (String × ℕ)
tally json batch = tally_from json batch []

module _ {P : Type 0} (json : Json P) (by_run_at : OrderBy (Row P) (λ r. r.run_at))
    (window : OrderBy Candidate (λ c. c.run_at)) (held : ℕ → Bool) where
  -- `main`, up to its assertions: the tallies of the plain claim and of the fair one.
  unfoldable pub compare_claims : ℕ → M P (List (String × ℕ) × List (String × ℕ))
  unfolding seed claim_batch fair_claim tally
  compare_claims now = do
    seed json now
    fifo ← claim_batch by_run_at held ("webhook.normalize" ∷ []) (pos 64) "fifo"
    seed json now
    fair ← fair_claim json by_run_at window held ("webhook.normalize" ∷ []) (pos 64) (pos 8) "fair"
    pure (tally json fifo, tally json fair)

entry-bump_entry :
    (c key : String) (m : List (String × ℕ))
    → entry c (bump_entry key m) ≡ (if str_eq key c then suc (entry c m) else entry c m)
entry-bump_entry c key [] = ground arith
entry-bump_entry c key ((k, n) ∷ m) =
    ground (arith, entry-bump_entry c key m, eq_iff k key, eq_iff k c, eq_iff key c)

entry-tally_from :
    {P : Type 0} (json : Json P) (c : String) (js : List (Job P)) (m : List (String × ℕ))
    → entry c (tally_from json js m) ≡ entry c m + count_if (λ j. str_eq (carrier_name json j) c) js
entry-tally_from json c [] m = omega arith
entry-tally_from json c (j ∷ js) m = ground (
  arith,
  entry-tally_from json c js (bump_entry (carrier_name json j) m),
  entry-bump_entry c (carrier_name json j) m,
)

-- The tally of a batch has, for each carrier, the number of its jobs.
pub tally-counts :
    {P : Type 0} (json : Json P) (c : String) (batch : List (Job P))
    → entry c (tally json batch) ≡ count_if (λ j. str_eq (carrier_name json j) c) batch
unfolding tally
tally-counts json c batch = omega (arith, entry-tally_from json c batch [])
