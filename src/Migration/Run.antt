-- ===== src/Migration/Run.antt =====
-- examples/bench_migration.rs: `main`, without its clocks: what it writes and what it counts.
use Prim.Native.String.{◌++◌ as append}
use skip_locked.Prelude.{ℕ, List, [], ◌∷◌, Option, none, some, String, str_eq, if◌then◌else◌}
use skip_locked.Migration.{Parsers}
use skip_locked.Migration.Payloads.{build_payloads}
use skip_locked.Migration.Accepted.{accepted}
use skip_locked.Bench.Latency.{env_usize}

-- `args.iter().position(|a| a == "-dump").and_then(|i| args.get(i + 1)).cloned()`.
abbrev pub dump_dir : List String → Option String
dump_dir [] = none
dump_dir (a ∷ []) = none
dump_dir (a ∷ b ∷ args) = if str_eq a "-dump" then some b else dump_dir (b ∷ args)

-- `payloads.join("\n")`.
abbrev pub join_lines : List String → String
join_lines [] = ""
join_lines (p ∷ []) = p
join_lines (p ∷ q ∷ ps) = append p (append "\n" (join_lines (q ∷ ps)))

-- The path and the text of the file that it writes, if any, and the two counts that it prints.
pub record Report : Type 0 where
  pub dumped : Option (String × String)
  pub n : ℕ
  pub accepted_count : ℕ

abbrev pub payload_count : (String → Option ℕ) → (String → Option String) → ℕ
payload_count parse var = env_usize parse (var "MIG_N") 200000

-- `path_join` is that of the standard library.
unfoldable pub migrate : Parsers → (String → String → String) → List String → ℕ → Report
migrate p path_join args n =
    let payloads = build_payloads n in
    record {
      dumped = elim (dump_dir args) [
        | none ↦ none
        | some dir ↦ some (path_join dir "payloads.jsonl", join_lines payloads)
      ];
      n = n;
      accepted_count = accepted p payloads;
    }
