-- ===== src/Tests/MainTests.antt =====
-- The benchmarks from their seeding to what they print.
use skip_locked.Prelude.{
  ℕ, ◌≡◌, refl, List, [], ◌∷◌, Option, some, none, String, arith, count_if, false, map, str_eq,
  ◌==◌, true, if◌then◌else◌,
}
use skip_locked.Prelude.Int.{pos, negsuc}
use skip_locked.Postgres.{ok}
use skip_locked.Postgres.OrderBy.{insertion_sort}
use skip_locked.Postgres.Json.{text_objects}
use skip_locked.Jobs.{Db, empty_db}
use skip_locked.Enqueue.{mark_done_sql}
use skip_locked.Claim.{update_claimed, lock_rows}
use skip_locked.Bench.Loops.{bench_kinds, series_rows, seed_bench, enqueue_sample}
use skip_locked.Bench.Latency.{latency}
use skip_locked.Bench.Latency.Recorded.{latency-total}
use skip_locked.Bench.Turn.{quiet, processed_row}
use skip_locked.Bench.Crew.{CrewTurn, begins, answers, marks, crew_turns}
use skip_locked.Bench.Crew.Marks.{is_finished}
use skip_locked.Bench.Throughput.{Config, config_of, throughput}
use skip_locked.Bench.Throughput.Totals.{throughput-totals, throughput-ends}
use skip_locked.Migration.Run.{dump_dir}
use skip_locked.Demos.Bouncer.{probed, bouncer_demo}
use skip_locked.Tests.Data.{Payload, by_run_at}

-- `BENCH_WORKERS` is no number, and `BENCH_BATCH` is 2^63.
abbrev variables : String → Option String
variables name =
    if str_eq name "BENCH_WORKERS"
    then some "many"
    else if str_eq name "BENCH_BATCH"
    then some "9223372036854775808"
    else none

abbrev parse : String → Option ℕ
parse text = if str_eq text "9223372036854775808" then some 9223372036854775808 else none

config_is_read :
    config_of parse variables
    ≡ record { jobs = pos 50000; workers = 8; size = negsuc 9223372036854775807; sample = pos 5000 }
config_is_read = refl

-- One sample, and two jobs for one worker with batches of two.
abbrev small : Config
small = record { jobs = pos 2; workers = 1; size = pos 2; sample = pos 1 }

abbrev claiming : List CrewTurn
claiming = begins 0 0 ∷ answers 0 ∷ begins 0 1 ∷ answers 0 ∷ []

abbrev processing : List CrewTurn
processing = begins 0 0 ∷ answers 0 ∷ marks 0 ∷ marks 0 ∷ marks 0 ∷ begins 0 1 ∷ answers 0 ∷ []

abbrev empty : Db Payload
empty = empty_db

small_runs :
    (throughput text_objects by_run_at small claiming processing (quiet empty 100)).0
    ≡ ok (some (2, 2))
unfolding throughput insertion_sort update_claimed lock_rows mark_done_sql crew_turns seed_bench
    enqueue_sample
small_runs = refl

throughput-totals_example :
    (◌≡◌ {A = ℕ} 2 2)
    × (◌≡◌ {A = ℕ} 2 2)
    × (count_if
          (is_finished bench_kinds)
          (throughput text_objects by_run_at small claiming processing (quiet empty 100)).1.db.jobs
        ≡ 2)
throughput-totals_example =
    throughput-totals text_objects by_run_at 100 small 2 2 refl refl (omega arith) (omega arith)
      claiming processing empty 2 2 small_runs

throughput-ends_example :
    (xs ys : List CrewTurn) × ((throughput text_objects by_run_at small xs ys (quiet empty 100)).0
      ≡ ok (some (2, 2)))
throughput-ends_example =
    throughput-ends text_objects by_run_at 100 small 2 2 refl refl (omega arith) (omega arith) empty

latency-total_example : latency by_run_at (λ i. false) text_objects 3 (pos 2) (quiet empty 100) ≡ (
  ok (some 2),
  quiet
      (record empty {
        jobs = map (processed_row 100 "lat") (series_rows text_objects 2 100);
        next_id = 3;
      })
      100,
)
latency-total_example = latency-total text_objects by_run_at 100 3 2 empty (omega arith)

-- The directory is the argument after the first `-dump`, if there is one.
dump_is_found : dump_dir ("bench" ∷ "-dump" ∷ "/tmp/mig" ∷ "-dump" ∷ []) ≡ some "/tmp/mig"
dump_is_found = refl

dump_without_directory : dump_dir ("bench" ∷ "-dump" ∷ []) ≡ none
dump_without_directory = refl

-- The named statements of the first pool go missing, and the second pool has none.
abbrev cached_pool : String → Option (ℕ → Option String)
cached_pool url =
    some (λ i. if i == 2 then some "prepared statement \"sqlx_s_1\" does not exist" else none)

abbrev fixed_pool : String → Option (ℕ → Option String)
fixed_pool url = some (λ i. none)

bouncer_demo_runs :
    bouncer_demo (λ s. s) cached_pool fixed_pool (some "postgres://bouncer")
    ≡ probed
        (record { trap_hit = true; last_err = "prepared statement \"sqlx_s_1\" does not exist" })
        500
unfolding bouncer_demo
bouncer_demo_runs = refl
