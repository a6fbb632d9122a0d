-- ===== src/Idempotent/Interleaved.antt =====
-- One effect for each event, however the handlers interleave.
use skip_locked.Prelude.{
  ℕ, zero, suc, ◌+◌, ◌≤◌, ◌≡◌, refl, List, [], ◌∷◌, Bool, true, false, Option, none, some, String,
  str_eq, count_if, if◌then◌else◌, arith, inl, inr, Option-cases, Bool-cases, eq_iff, eq_refl,
  subst, ◌&&◌,
}
use skip_locked.Jobs.{Db}
use skip_locked.Idempotent.{Outcome, applied, duplicate, event_key, processed}
use skip_locked.Idempotent.Effects.{IsOnce, Added-IsOnce}
use skip_locked.Idempotent.Handlers.{
  Handling, Handlers, Turn, dedupe, notify, commit_handling, fail, is_handled, pick, turn, turns,
  dedupe_key, commit_picked, with_answer, notify_picked, fail_picked,
}

abbrev handled_times : String → List Handling → ℕ
handled_times k hs = count_if (λ h. str_eq k h.key) hs

none_handled : (k : String) (hs : List Handling) → is_handled k hs ≡ false → handled_times k hs ≡ 0
none_handled k [] e = refl
none_handled k (h ∷ hs) e = ground (arith, none_handled k hs)

handled-pick :
    (k : String) (i : ℕ) (hs rest : List Handling) (h : Handling)
    → pick i hs ≡ some (h, rest)
    → handled_times k hs ≡ (if str_eq k h.key then 1 else 0) + handled_times k rest
handled-pick k i [] rest h e = ground arith
handled-pick k zero (g ∷ hs) rest h e = ground arith
handled-pick k (suc i) (g ∷ hs) rest h e = elim (Option-cases (pick i hs)) [
  | inl q ↦ ground arith
  | inr ((a, b), q) ↦ ground (arith, handled-pick k i hs b a q)
]

abbrev is_applied : Outcome → Bool
is_applied applied = true
is_applied duplicate = false

-- How often a key was answered `Applied`.
abbrev pub applied_times : String → List (String × Outcome) → ℕ
applied_times k said = count_if (λ a. str_eq k (a.0) && is_applied (a.1)) said

with_answer-le :
    (k : String) (heard : Bool) (key : String) (said : List (String × Outcome))
    → applied_times k (with_answer heard key said)
      ≤ (if str_eq k key then 1 else 0) + applied_times k said
with_answer-le k true key said = ground arith
with_answer-le k false key said = omega arith

module _ {P : Type 0} where
  abbrev known : String → Handlers P → ℕ
  known k s = if processed k s.db then 1 else 0

  pub record Once (s : Handlers P) : Type 0 where
    pub once : IsOnce s.db
    pub single : (k : String) → handled_times k s.handling + known k s ≤ 1
    pub told : (k : String) → applied_times k s.answered ≤ known k s

  -- A step that goes through has this outcome.
  reached :
      (t s' : Handlers P) → ◌≡◌ {A = Option (Handlers P)} (some t) (some s') → Once t → Once s'
  reached t s' e o = let q : t ≡ s' = cc in subst Once q o

  impossible : (s' : Handlers P) → ◌≡◌ {A = Option (Handlers P)} none (some s') → Once s'
  impossible s' e = cc

  dedupe-Once : (key : String) (s s' : Handlers P) → dedupe_key key s ≡ some s' → Once s → Once s'
  dedupe-Once key s s' e v = elim (Bool-cases (is_handled key s.handling)) [
    | inl t ↦ impossible s' (rw t at e)
    | inr f ↦ elim (Bool-cases (processed key s.db)) [
      | inl p ↦
          reached (record s { answered = (key, duplicate) ∷ s.answered }) s' (rw (f, p) at e)
            (record { once = v.once; single = v.single; told = λ k. ground (arith, v.told k) })
      | inr n ↦
          reached (record s { handling = record { key = key; has_effect = false } ∷ s.handling }) s'
            (rw (f, n) at e)
            (record {
              once = v.once;
              single = λ k. elim (Bool-cases (str_eq k key)) [
                | inl t ↦
                    let q : k ≡ key = (eq_iff k key).0 t in
                    ground (arith, q, t, n, none_handled key s.handling f)
                | inr t ↦ ground (arith, t, v.single k)
              ];
              told = v.told;
            })
    ]
  ]

  notify-Once :
      (i : ℕ) (s s' : Handlers P) → notify_picked (pick i s.handling) s ≡ some s' → Once s → Once s'
  notify-Once i s s' e v = elim (Option-cases (pick i s.handling)) [
    | inl q ↦ impossible s' (rw q at e)
    | inr ((h, rest), q) ↦
        reached (record s { handling = record h { has_effect = true } ∷ rest }) s' (rw q at e)
          (record {
            once = v.once;
            single = λ k. omega (arith, v.single k, handled-pick k i s.handling rest h q);
            told = v.told;
          })
  ]

  fail-Once :
      (i : ℕ) (s s' : Handlers P) → fail_picked (pick i s.handling) s ≡ some s' → Once s → Once s'
  fail-Once i s s' e v = elim (Option-cases (pick i s.handling)) [
    | inl q ↦ impossible s' (rw q at e)
    | inr ((h, rest), q) ↦
        reached (record s { handling = rest }) s' (rw q at e)
          (record {
            once = v.once;
            single = λ k. omega (arith, v.single k, handled-pick k i s.handling rest h q);
            told = v.told;
          })
  ]

  abbrev committed : Bool → Handling → List Handling → Handlers P → Handlers P
  committed heard h rest s = record {
    db = record s.db {
      processed_events = h.key ∷ s.db.processed_events;
      notifications = h.key ∷ s.db.notifications;
    };
    handling = rest;
    answered = with_answer heard h.key s.answered;
  }

  -- The key of an open transaction is not committed yet.
  committed-Once :
      (heard : Bool) (h : Handling) (rest : List Handling) (s : Handlers P)
      → ((k : String)
          → handled_times k s.handling ≡ (if str_eq k h.key then 1 else 0) + handled_times k rest)
      → Once s
      → Once (committed heard h rest s)
  committed-Once heard h rest s p v =
      let new : processed h.key s.db ≡ false =
        ground (arith, p h.key, v.single h.key, eq_refl h.key) in
      record {
        once =
            Added-IsOnce h.key s.db (committed heard h rest s).db
              (record { is_new = new; processed_events = refl; notifications = refl }) v.once;
        single = λ k. elim (Bool-cases (str_eq k h.key)) [
          | inl t ↦ ground (arith, t, p k, v.single k)
          | inr t ↦ ground (arith, t, p k, v.single k)
        ];
        told = λ k.
            ground
              (arith, v.told k, with_answer-le k heard h.key s.answered, new, eq_iff k h.key, p k);
      }

  commit-Once :
      (i : ℕ) (heard : Bool) (s s' : Handlers P)
      → commit_picked heard (pick i s.handling) s ≡ some s'
      → Once s
      → Once s'
  commit-Once i heard s s' e v = elim (Option-cases (pick i s.handling)) [
    | inl q ↦ impossible s' (rw q at e)
    | inr ((h, rest), q) ↦ elim (Bool-cases h.has_effect) [
      | inr f ↦ impossible s' (rw (q, f) at e)
      | inl t ↦
          reached (committed heard h rest s) s' (rw (q, t) at e)
            (committed-Once heard h rest s (λ k. handled-pick k i s.handling rest h q) v)
    ]
  ]

  turn-Once : (t : Turn) (s s' : Handlers P) → turn t s ≡ some s' → Once s → Once s'
  unfolding turn
  turn-Once (dedupe c v) s s' e o = dedupe-Once (event_key c v) s s' e o
  turn-Once (notify i) s s' e o = notify-Once i s s' e o
  turn-Once (commit_handling i heard) s s' e o = commit-Once i heard s s' e o
  turn-Once (fail i) s s' e o = fail-Once i s s' e o

  turns-Once : (ts : List Turn) (s s' : Handlers P) → turns ts s ≡ some s' → Once s → Once s'
  unfolding turns
  turns-Once [] s s' e o = let q : s ≡ s' = cc in subst Once q o
  turns-Once (t ∷ ts) s s' e o = elim (Option-cases (turn t s)) [
    | inl q ↦ let e' : ◌≡◌ {A = Option (Handlers P)} none (some s') = rw (turns, q) at e in cc
    | inr (u, q) ↦
        let e' : turns ts u ≡ some s' = rw (turns, q) at e in
        turns-Once ts u s' e' (turn-Once t s u q o)
  ]

  -- However the handlers of any events interleave, fail and lose their replies: each processed event has exactly one
  -- side effect, no other event has any, and no event is answered `Applied` twice.
  pub turns-IsOnce :
      (ts : List Turn) (db : Db P) (s : Handlers P)
      → IsOnce db
      → turns ts (record { db = db; handling = []; answered = [] }) ≡ some s
      → IsOnce s.db × ((k : String) → applied_times k s.answered ≤ 1)
  turns-IsOnce ts db s once e =
      let o =
        turns-Once ts (record { db = db; handling = []; answered = [] }) s e
          (record { once = once; single = λ k. ground arith; told = λ k. ground arith }) in
      (o.once, λ k. ground (arith, o.told k))
