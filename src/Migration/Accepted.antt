-- ===== src/Migration/Accepted.antt =====
-- Every payload that the benchmark generates is accepted by `process`.
use Prim.Native.String.{len}
use text.Mathlib.TextPositions.{len-append}
use skip_locked.Prelude.{
  ℕ, ◌^◌, ◌∙◌, zero, suc, ◌+◌, ◌<◌, ◌≡◌, ◌≢◌, List, [], ◌∷◌, Bool, true, some, none, String, arith,
  any, str_eq, length, refl, ◌&&◌, ltb, ltb→lt, subst, Option-cases, inl, inr,
}
use skip_locked.Migration.{Parsers, process, statuses}
use skip_locked.Migration.Payloads.{
  Fields, carriers, draw, render, webhook, timestamp, get, turns, build_payloads, padded,
  seed_state,
}
use skip_locked.Migration.Document.{print, document, raw_of}
use skip_locked.Migration.Rendered.{stamp, render-document, raw_of-document, timestamp-stamp}
use skip_locked.Migration.Valid.{IsValid, process-accepts}

-- The fields are in the ranges that the modulo of each draw gives.
pub record InRange (f : Fields) : Type 0 where
  pub carrier : f.carrier < 6
  pub status : f.status < 6
  pub weighs : 0 < f.w
  pub counts : 0 < f.p
  pub light : f.w < 2 ^ 63
  pub few : f.p < 2 ^ 63
  pub hour : f.hour < 24
  pub minute : f.minute < 60

pub draw-InRange : (s : ℕ) → InRange (draw s).0
unfolding draw
draw-InRange s = record {
  carrier = omega arith;
  status = omega arith;
  weighs = omega arith;
  counts = omega arith;
  light = omega arith;
  few = omega arith;
  hour = omega arith;
  minute = omega arith;
}

abbrev all : (String → Bool) → List String → Bool
all q [] = true
all q (x ∷ xs) = q x && all q xs

all-get :
    (q : String → Bool) (xs : List String) (i : ℕ)
    → all q xs ≡ true
    → i < length xs
    → q (get xs i) ≡ true
all-get q [] i h b = ground arith
all-get q (x ∷ xs) zero h b = ground arith
all-get q (x ∷ xs) (suc i) h b = ground (arith, all-get q xs i)

get-carriers : (i : ℕ) → i < 6 → 0 < len (get carriers i)
get-carriers i h = ltb→lt 0 _ (all-get (λ s. ltb 0 (len s)) carriers i refl h)

get-statuses : (i : ℕ) → i < 6 → any (str_eq (get statuses i)) statuses ≡ true
get-statuses i h = all-get (λ s. any (str_eq s) statuses) statuses i refl h

pub webhook-IsValid : (i : ℕ) (f : Fields) → InRange f → IsValid (webhook i f)
webhook-IsValid i f r = record {
  named = get-carriers f.carrier r.carrier;
  tracked = omega (arith, len-append "1Z999AA" (padded 10 i));
  known = get-statuses f.status r.status;
  packed = record {
    weight = f.w;
    pieces = f.p;
    weighs = r.weighs;
    counts = r.counts;
    weight_grams_is = refl;
    pieces_is = refl;
  };
}

-- What `serde_json::from_str` makes of the compact text of the document of a turn.
abbrev pub Reads : Parsers → ℕ → Fields → Type 0
Reads p i f = p.from_str (print (document i f) "") ≡ raw_of (document i f)

-- The times of the day are read.
abbrev pub Clock : Parsers → Type 0
Clock p = (h m : ℕ) → h < 24 → m < 60 → p.rfc3339_millis (stamp h m) ≢ none

-- `ok` of `main`: how many of the payloads `process` accepts.
abbrev pub accepted : Parsers → List String → ℕ
accepted p [] = 0
accepted p (raw ∷ raws) = elim (process p raw) [
  | none ↦ accepted p raws
  | some n ↦ suc (accepted p raws)
]

abbrev pub state_at : ℕ → ℕ → ℕ
state_at zero s = s
state_at (suc k) s = state_at k (draw s).1

turn-accepted :
    (p : Parsers) (i : ℕ) (f : Fields)
    → InRange f
    → Clock p
    → Reads p i f
    → process p (render i f) ≢ none
turn-accepted p i f r clock reads = elim (Option-cases (p.rfc3339_millis (timestamp f))) [
  | inl e ↦
      absurd (clock f.hour f.minute r.hour r.minute (rw (timestamp-stamp f r.hour r.minute) at e))
  | inr (ts, e) ↦
      process-accepts p (render i f) (webhook i f) ts
        (rw (render-document i f) (reads ∙ raw_of-document i f r.light r.few))
        (webhook-IsValid i f r) e
]

accepted-turns :
    (p : Parsers) (n i s : ℕ)
    → Clock p
    → ((k : ℕ) → k < n → Reads p (i + k) (draw (state_at k s)).0)
    → accepted p (turns n i s) ≡ n
accepted-turns p zero i s clock reads = refl
accepted-turns p (suc n) i s clock reads = elim (Option-cases (process p (render i (draw s).0))) [
  | inl e ↦ absurd (
      turn-accepted p i (draw s).0 (draw-InRange s) clock
        (subst (λ j. Reads p j (draw s).0) (omega arith) (reads 0 (omega arith))) e)
  | inr (r, e) ↦ ground (
    arith,
    accepted-turns p n (suc i) (draw s).1 clock (λ k h.
        subst (λ j. Reads p j (draw (state_at (suc k) s)).0) (omega arith)
          (reads (suc k) (omega arith))),
  )
]

-- If the JSON parser reads the compact text of each payload's document as the webhook type reads the document, and the
-- time parser reads every time of the day, `process` accepts all payloads that `build_payloads` makes.
pub build_payloads-accepted :
    (p : Parsers) (n : ℕ)
    → Clock p
    → ((k : ℕ) → k < n → Reads p k (draw (state_at k seed_state)).0)
    → accepted p (build_payloads n) ≡ n
build_payloads-accepted p n clock reads =
    accepted-turns p n 0 seed_state clock
      (λ k h. subst (λ j. Reads p j (draw (state_at k seed_state)).0) (omega arith) (reads k h))
