-- ===== src/Tests/DemoTests.antt =====
-- The example programs at concrete inputs.
use skip_locked.Prelude.{
  ℕ, zero, suc, ◌*◌, ◌<◌, ◌≤◌, ◌≡◌, refl, List, [], ◌∷◌, ◌++◌, true, false, some, none, Option,
  String, ◌⊎◌, arith,
}
use skip_locked.Prelude.Int.{ℤ, pos}
use skip_locked.Postgres.{ok, IsErr}
use skip_locked.Postgres.OrderBy.{insertion_sort}
use skip_locked.Postgres.Json.{text_objects}
use skip_locked.Jobs.{Job, empty_db, second, ready}
use skip_locked.Session.{World, delivered, reply_lost}
use skip_locked.Enqueue.{insert_job}
use skip_locked.Enqueue.Atomic.{Untouched}
use skip_locked.Idempotent.{applied, duplicate, event_key, processed, process}
use skip_locked.Idempotent.Effects.{
  Added, Kept, IsOnce, deliveries, process-atomic, deliveries-IsOnce,
}
use skip_locked.Idempotent.Handlers.{Turn, Handlers, dedupe, notify, commit_handling, fail, turns}
use skip_locked.Idempotent.Interleaved.{turns-IsOnce, applied_times}
use skip_locked.Migration.{Raw, Normalized, Parsers, billable, process as normalize_webhook}
use skip_locked.Migration.Payloads.{draw, webhook, build_payloads, seed_state}
use skip_locked.Migration.Accepted.{Clock, Reads, accepted, state_at, build_payloads-accepted}
use text.Mathlib.TextPositions.{starts_with-append}
use skip_locked.Migration.Rendered.{time_of_day}
use skip_locked.Migration.Document.{print}
use skip_locked.Tests.Parsing.{readers, read_value}
use skip_locked.Demos.Producer.{produce}
use skip_locked.Demos.Burst.{burst_rows, produce-atomic}
use skip_locked.Demos.Reaper.{scene_1, scene_2, scene_3}
use skip_locked.Demos.Rerun.{run_twice}
use skip_locked.Tests.Data.{Payload, from_carrier, by_run_at, nobody, world, table}

abbrev at_noon : World Payload
at_noon = record { db = empty_db; clock = 10 * second; wire = [] }

-- The reaper alone lets two workers run the job; the heartbeat prevents it; a dead worker's job is
-- ready again.
scene_1_runs : (scene_1 text_objects by_run_at nobody at_noon).0 ≡ ok (1, 1 ∷ [], 1, 1 ∷ [])
unfolding scene_1 insertion_sort insert_job
scene_1_runs = refl

scene_2_runs : (scene_2 text_objects by_run_at nobody at_noon).0 ≡ ok (1, 0, 0)
unfolding scene_2 insertion_sort insert_job
scene_2_runs = refl

scene_3_runs : (scene_3 text_objects by_run_at nobody at_noon).0 ≡ ok (1, ready)
unfolding scene_3 insertion_sort insert_job
scene_3_runs = refl

-- The second run's effect is kept although the reply of its commit is lost.
process-atomic_example :
    let key = event_key "A" "evt-42" in
    let (r, w') =
      process "A" "evt-42" (world (delivered ∷ delivered ∷ delivered ∷ reply_lost ∷ [])) in
    (Added key table w'.db × ((r ≡ ok applied) ⊎ IsErr r))
    ⊎ (Kept table w'.db × (((r ≡ ok duplicate) × (processed key table ≡ true)) ⊎ IsErr r))
process-atomic_example =
    process-atomic "A" "evt-42" (world (delivered ∷ delivered ∷ delivered ∷ reply_lost ∷ []))

abbrev twice : List (String × String)
twice = ("A", "evt-42") ∷ ("A", "evt-42") ∷ []

deliveries-IsOnce_example : IsOnce (deliveries twice (world [])).db
deliveries-IsOnce_example = deliveries-IsOnce twice (world []) (λ key. refl)

-- Beside a handler of another event, the first delivery of an event fails after its dedupe insert, the
-- second commits, and the third is a duplicate.
abbrev deliveries_in_turn : List Turn
deliveries_in_turn =
    dedupe "A" "evt-1"
    ∷ dedupe "A" "evt-42"
    ∷ fail 0
    ∷ dedupe "A" "evt-42"
    ∷ notify 0
    ∷ notify 1
    ∷ commit_handling 1 true
    ∷ dedupe "A" "evt-42"
    ∷ commit_handling 0 false
    ∷ []

abbrev handled_both : Handlers Payload
handled_both = record {
  db = record table {
    processed_events = "A:evt-1" ∷ "A:evt-42" ∷ [];
    notifications = "A:evt-1" ∷ "A:evt-42" ∷ [];
  };
  handling = [];
  answered = ("A:evt-42", duplicate) ∷ ("A:evt-42", applied) ∷ [];
}

handles_both :
    turns deliveries_in_turn (record { db = table; handling = []; answered = [] })
    ≡ some handled_both
unfolding turns event_key
handles_both = refl

turns-IsOnce_example :
    IsOnce handled_both.db × ((k : String) → applied_times k handled_both.answered ≤ 1)
turns-IsOnce_example = turns-IsOnce deliveries_in_turn table handled_both (λ key. refl) handles_both

-- Two different events with one key: the second is taken for a duplicate.
same_key : event_key "a:b" "c" ≡ event_key "a" "b:c"
unfolding event_key
same_key = refl

produce-atomic_example :
    let (r, w') = produce text_objects 3 (world []) in
    ((w'.db.jobs ≡ burst_rows text_objects 3 0 5 100 ++ table.jobs) × (w'.db.notified ≡ 1))
    ⊎ (Untouched table w'.db × IsErr r)
produce-atomic_example = produce-atomic text_objects 3 (world [])

abbrev job_from : String → Job Payload
job_from c = record { id = 1; kind = "k"; payload = from_carrier c; attempts = 1 }

abbrev mixed : List (Job Payload)
mixed = job_from "A" ∷ job_from "B" ∷ job_from "A" ∷ []

-- The first payload of the benchmark, and parsers that know it.
abbrev first_webhook : Raw
first_webhook = webhook 0 (draw seed_state).0

abbrev parsers : Parsers
parsers = record {
  from_str = λ s. some first_webhook;
  rfc3339_millis = λ s. some (pos 7);
  to_uppercase = λ s. s;
}

reads-Clock : Clock readers
reads-Clock h m hh mm e =
    let day = starts_with-append "2026-06-16T" (time_of_day h m) in
    let e' : ◌≡◌ {A = Option ℤ} (some (pos 1781568000000)) none = rw day at e in cc

-- The readers read the first two payloads.
first_two_read : (k : ℕ) → k < 2 → Reads readers k (draw (state_at k seed_state)).0
unfolding read_value print draw
first_two_read zero h = refl
first_two_read (suc zero) h = refl
first_two_read (suc (suc k)) h = ground arith

build_payloads-accepted_example : accepted readers (build_payloads 2) ≡ 2
build_payloads-accepted_example = build_payloads-accepted readers 2 reads-Clock first_two_read

abbrev first_normalized : Normalized
first_normalized = record {
  carrier = first_webhook.carrier_code;
  tracking = first_webhook.tracking_number;
  status = "IN_TRANSIT";
  ts_millis = pos 7;
  country = first_webhook.event.location.country;
  billable_grams = billable first_webhook.pack;
}

first_processed : normalize_webhook parsers "" ≡ some first_normalized
unfolding normalize_webhook draw
first_processed = refl

-- Two runs, one effect.
run_twice_runs : (run_twice "A" "evt-42" at_noon).0 ≡ ok (applied, duplicate, 1)
unfolding run_twice
run_twice_runs = refl
