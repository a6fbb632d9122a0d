-- ===== src/Demos/SkipLocked.antt =====
-- examples/demo_skip_locked.rs: the seeded jobs and the overlap of the two batches.
use Prim.Native.String.{◌++◌ as append}
use skip_locked.Prelude.{
  ℕ, zero, suc, ◌+◌, ◌≤◌, ◌≡◌, List, [], ◌∷◌, ◌++◌, true, any, ◌==◌, if◌then◌else◌, count_if,
  count_if-append, arith, Bool-cases, inl, inr, ap, refl,
}
use skip_locked.Postgres.Json.{Json}
use skip_locked.Postgres.OrderBy.{OrderBy}
use skip_locked.Jobs.{Row, Db, Job}
use skip_locked.Session.{M, Tx, pure, ◌>>=◌, ◌>>◌, begin, commit, execute}
use skip_locked.Enqueue.{enqueue, notify_ready}
use skip_locked.Migration.Payloads.{decimal}
use skip_locked.Demos.{event_payload, truncate}
use skip_locked.Claimers.{Move, moves}
use skip_locked.Claimers.Counts.{with_id}
use skip_locked.Claimers.Disjoint.{moves-disjoint}

module _ {P : Type 0} (json : Json P) where
  -- The loop's turns from `i` on, `count` of them.
  unfoldable pub seed_ready : ℕ → ℕ → Tx P → M P (Tx P)
  unfolding enqueue
  seed_ready zero i tx = pure tx
  seed_ready (suc count) i tx =
      enqueue tx "webhook.normalize" (event_payload json "A" (append "e" (decimal 20 i))) >>= λ x.
      seed_ready count (suc i) (x.1)

  unfoldable pub seed_demo : M P (Unit {0})
  unfolding execute begin seed_ready notify_ready commit
  seed_demo = do
    execute truncate
    tx ← begin
    tx' ← seed_ready 100 0 tx
    tx'' ← notify_ready tx'
    commit tx''

-- `ids1.intersection(&ids2)`, in the order of the first batch.
unfoldable pub overlap : {P : Type 0} → List (Job P) → List (Job P) → List ℕ
overlap [] js = []
overlap (j ∷ bs) js =
    let rest = overlap bs js in if any (λ k. k.id == j.id) js then j.id ∷ rest else rest

any-count :
    {P : Type 0} (i : ℕ) (js : List (Job P))
    → any (λ k. k.id == i) js ≡ true
    → 1 ≤ count_if (λ j. j.id == i) js
any-count i [] h = ground arith
any-count i (j ∷ js) h = ground (arith, any-count i js)

-- Batches in which no id stands twice have no overlap.
overlap-none :
    {P : Type 0} (b c : List (Job P))
    → ((i : ℕ) → count_if (λ j. j.id == i) b + count_if (λ j. j.id == i) c ≤ 1)
    → overlap b c ≡ []
unfolding overlap
overlap-none [] c h = refl
overlap-none (j ∷ b) c h = elim (Bool-cases (any (λ k. k.id == j.id) c)) [
  | inl e ↦ ground (arith, h j.id, any-count j.id c e)
  | inr e ↦ rw e (overlap-none b c (λ i. omega (arith, h i)))
]

-- However two claims interleave with any others, the batches that they return have no job in
-- common, if the ids of the table are unique.
pub overlap-empty :
    {P : Type 0} (by_run_at : OrderBy (Row P) (λ r. r.run_at)) (ms : List Move) (db : Db P)
    (batch1 batch2 : List (Job P))
    → ((i : ℕ) → with_id i db.jobs ≤ 1)
    → (moves by_run_at ms (record { db = db; flights = []; returned = [] })).returned
      ≡ batch2 ++ batch1
    → overlap batch1 batch2 ≡ []
overlap-empty by_run_at ms db b1 b2 u e = overlap-none b1 b2 (λ i. ground (
  arith,
  moves-disjoint by_run_at ms db i (u i),
  ap (count_if (λ j. j.id == i)) e,
  count_if-append (λ j. j.id == i) b2 b1,
))
