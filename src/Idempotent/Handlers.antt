-- ===== src/Idempotent/Handlers.antt =====
-- `process` of examples/demo_idempotency.rs in many handlers at once. Postgres lets an INSERT of a
-- key that an open transaction inserted wait until that transaction has ended; then the INSERT finds
-- the key committed, or gone.
use skip_locked.Prelude.{
  ℕ, zero, suc, List, [], ◌∷◌, Bool, true, false, Option, none, some, String, str_eq, any,
  if◌then◌else◌,
}
use skip_locked.Jobs.{Db}
use skip_locked.Idempotent.{Outcome, applied, duplicate, event_key, processed}

-- A transaction that inserted its key, and whether the side effect is in it yet.
pub record Handling : Type 0 where
  pub key : String
  pub has_effect : Bool

-- The committed tables, the open transactions, and the answers that callers had.
pub record Handlers (P : Type 0) : Type 0 where
  pub db : Db P
  pub handling : List Handling
  pub answered : List (String × Outcome)

pub data Turn : Type 0 where
  -- A call's dedupe insert, for a carrier and an event; a duplicate is rolled back and answered.
  dedupe : String → String → Turn
  -- The transaction at this place inserts its notification.
  notify : ℕ → Turn
  -- It commits, and its caller has the answer or not.
  commit_handling : ℕ → Bool → Turn
  -- It ends without a commit.
  fail : ℕ → Turn

abbrev pub is_handled : String → List Handling → Bool
is_handled key hs = any (λ h. str_eq key h.key) hs

abbrev pub pick : ℕ → List Handling → Option (Handling × List Handling)
pick i [] = none
pick zero (h ∷ hs) = some (h, hs)
pick (suc i) (h ∷ hs) = elim (pick i hs) [ none ↦ none | some (g, rest) ↦ some (g, h ∷ rest) ]

abbrev pub with_answer : Bool → String → List (String × Outcome) → List (String × Outcome)
with_answer true key said = (key, applied) ∷ said
with_answer false key said = said

module _ {P : Type 0} where
  abbrev pub dedupe_key : String → Handlers P → Option (Handlers P)
  dedupe_key key s =
      if is_handled key s.handling
      then none
      else if processed key s.db
      then some (record s { answered = (key, duplicate) ∷ s.answered })
      else some (record s { handling = record { key = key; has_effect = false } ∷ s.handling })

  abbrev pub notify_picked : Option (Handling × List Handling) → Handlers P → Option (Handlers P)
  notify_picked none s = none
  notify_picked (some (h, rest)) s =
      some (record s { handling = record h { has_effect = true } ∷ rest })

  -- The commit stands after the notification in the code.
  abbrev pub commit_picked :
      Bool → Option (Handling × List Handling) → Handlers P → Option (Handlers P)
  commit_picked heard none s = none
  commit_picked heard (some (h, rest)) s =
      if h.has_effect
      then some (record {
        db = record s.db {
          processed_events = h.key ∷ s.db.processed_events;
          notifications = h.key ∷ s.db.notifications;
        };
        handling = rest;
        answered = with_answer heard h.key s.answered;
      })
      else none

  abbrev pub fail_picked : Option (Handling × List Handling) → Handlers P → Option (Handlers P)
  fail_picked none s = none
  fail_picked (some (h, rest)) s = some (record s { handling = rest })

  -- `none`: the turn cannot be taken there.
  unfoldable pub turn : Turn → Handlers P → Option (Handlers P)
  unfolding event_key
  turn (dedupe carrier_id event_id) s = dedupe_key (event_key carrier_id event_id) s
  turn (notify i) s = notify_picked (pick i s.handling) s
  turn (commit_handling i heard) s = commit_picked heard (pick i s.handling) s
  turn (fail i) s = fail_picked (pick i s.handling) s

  unfoldable pub turns : List Turn → Handlers P → Option (Handlers P)
  unfolding turn
  turns [] s = some s
  turns (t ∷ ts) s = elim (turn t s) [ none ↦ none | some s' ↦ turns ts s' ]
