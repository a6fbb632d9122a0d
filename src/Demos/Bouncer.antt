-- ===== src/Demos/Bouncer.antt =====
-- examples/demo_pgbouncer.rs: the probes through a cached pool and through the fixed one. A probe's
-- answer is what the pooler and Postgres make of it: `none`, or the text of an error.
use Prim.Native.String.{find, len}
use skip_locked.Prelude.{
  ℕ, zero, suc, Bool, true, false, Option, none, some, String, ltb, ◌||◌, if◌then◌else◌,
}

-- `e.contains(text)` of a text that is not empty: the search answers more than the length of `e`
-- where it finds nothing.
abbrev pub contains_text : String → String → Bool
contains_text e text = ltb (find e text) (len e)

-- `to_lowercase` is the standard library's.
abbrev pub is_trap : (String → String) → String → Bool
is_trap to_lowercase e =
    contains_text e "does not exist" || contains_text (to_lowercase e) "prepared statement"

-- `trap_hit` and `last_err`.
pub record Probed : Type 0 where
  pub trap_hit : Bool
  pub last_err : String

module _ (to_lowercase : String → String) (probe : ℕ → Option String) where
  -- An error that is not the trap is remembered, and the loop goes on.
  abbrev pub after_error : String → Probed → Probed
  after_error e rest =
      if is_trap to_lowercase e then record { trap_hit = true; last_err = e } else rest

  -- The turns from `i` on, `count` of them.
  unfoldable pub cached_probes : ℕ → ℕ → String → Probed
  cached_probes zero i last = record { trap_hit = false; last_err = last }
  cached_probes (suc count) i last = elim (probe i) [
    | none ↦ cached_probes count (suc i) last
    | some e ↦ after_error e (cached_probes count (suc i) e)
  ]

module _ (probe : ℕ → Option String) where
  -- `none` where a probe's error ends `main`.
  unfoldable pub fixed_probes : ℕ → ℕ → ℕ → Option ℕ
  fixed_probes zero i ok = some ok
  fixed_probes (suc count) i ok = elim (probe i) [
    | none ↦ fixed_probes count (suc i) (suc ok)
    | some e ↦ none
  ]

-- What `main` goes through: it skips without the variable, and a pool that does not open or a probe that fails ends it.
pub data Report : Type 0 where
  skipped failed : Report
  probed : Probed → ℕ → Report

module _ (to_lowercase : String → String) where
  abbrev pub with_fixed : Probed → Option ℕ → Report
  with_fixed seen none = failed
  with_fixed seen (some ok) = probed seen ok

  -- `cached` and `fixed` open the two pools at a URL: their probes, or `none`.
  unfoldable pub bouncer_demo :
      (String → Option (ℕ → Option String))
      → (String → Option (ℕ → Option String))
      → Option String
      → Report
  unfolding cached_probes fixed_probes
  bouncer_demo cached fixed none = skipped
  bouncer_demo cached fixed (some url) = elim (cached url) [
    | none ↦ failed
    | some p ↦ elim (fixed url) [
      | none ↦ failed
      | some q ↦ with_fixed (cached_probes to_lowercase p 500 0 "") (fixed_probes q 500 0 0)
    ]
  ]
