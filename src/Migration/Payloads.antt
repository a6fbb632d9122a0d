-- ===== src/Migration/Payloads.antt =====
-- examples/bench_migration.rs: `build_payloads`, with its linear congruential generator.
use Prim.Native.String.{◌++◌ as append}
use skip_locked.Prelude.{
  ℕ, zero, suc, ◌+◌, ◌*◌, ◌/◌, ◌%◌, ◌^◌, List, [], ◌∷◌, String, if◌then◌else◌, ltb,
}
use skip_locked.Prelude.Int.{pos}
use skip_locked.Migration.{Raw, statuses}

-- `state.wrapping_mul(…).wrapping_add(…)`.
abbrev pub advance : ℕ → ℕ
advance state = (state * 6364136223846793005 + 1442695040888963407) % 2 ^ 64

-- `(state >> 33) as u32`, of the state that the call leaves.
abbrev pub output : ℕ → ℕ
output state = state / 2 ^ 33 % 2 ^ 32

abbrev pub seed_state : ℕ
seed_state = 12648430

abbrev pub cities : List String
cities = "Hamburg" ∷ "Lyon" ∷ "Turin" ∷ "Gdansk" ∷ "Porto" ∷ "Brno" ∷ []

abbrev pub countries : List String
countries = "DE" ∷ "FR" ∷ "IT" ∷ "PL" ∷ "PT" ∷ "CZ" ∷ []

abbrev pub carriers : List String
carriers = "uxz" ∷ "dhl" ∷ "gls" ∷ "dpd" ∷ "inpost" ∷ "ups" ∷ []

-- `xs[i]`; the source stays in range.
abbrev pub get : List String → ℕ → String
get [] i = ""
get (x ∷ xs) zero = x
get (x ∷ xs) (suc i) = get xs i

abbrev digit_texts : List String
digit_texts = "0" ∷ "1" ∷ "2" ∷ "3" ∷ "4" ∷ "5" ∷ "6" ∷ "7" ∷ "8" ∷ "9" ∷ []

abbrev pub digit : ℕ → String
digit d = get digit_texts d

-- `{n}`, for a fuel of at least the number of digits.
abbrev pub decimal : ℕ → ℕ → String
decimal zero n = ""
decimal (suc fuel) n =
    let rest = decimal fuel (n / 10) in append (if ltb n 10 then "" else rest) (digit (n % 10))

-- The `width` last digits, which are all where the number has no more.
abbrev pub last_digits : ℕ → ℕ → String
last_digits zero n = ""
last_digits (suc width) n = append (last_digits width (n / 10)) (digit (n % 10))

-- `{n:0width}`: more digits than the width are all written.
abbrev pub padded : ℕ → ℕ → String
padded width n = if ltb n (10 ^ width) then last_digits width n else decimal 20 n

-- The locals of one turn of the loop.
pub record Fields : Type 0 where
  pub carrier : ℕ
  pub status : ℕ
  pub place : ℕ
  pub w : ℕ
  pub p : ℕ
  pub hour : ℕ
  pub minute : ℕ
  pub postal : ℕ

abbrev pub timestamp : Fields → String
timestamp f =
    append "2026-06-16T" (append (padded 2 f.hour) (append ":" (append (padded 2 f.minute) ":00Z")))

-- The webhook that turn `i` describes.
abbrev pub webhook : ℕ → Fields → Raw
webhook i f = record {
  carrier_code = get carriers f.carrier;
  tracking_number = append "1Z999AA" (padded 10 i);
  event = record {
    status = get statuses f.status;
    timestamp = timestamp f;
    location = record {
      city = get cities f.place;
      country = get countries f.place;
      postal = padded 5 f.postal;
    };
  };
  pack = record { weight_grams = pos f.w; pieces = pos f.p };
}

abbrev pub quoted : String → String → String
quoted key value = append "\"" (append key (append "\":\"" (append value "\"")))

abbrev pub concat : List String → String
concat [] = ""
concat (x ∷ xs) = append x (concat xs)

-- The `format!` of turn `i`.
unfoldable pub render : ℕ → Fields → String
render i f = concat (
    "{"
    ∷ quoted "carrier_code" (get carriers f.carrier)
    ∷ ","
    ∷ quoted "tracking_number" (append "1Z999AA" (padded 10 i))
    ∷ ",\"event\":{"
    ∷ quoted "status" (get statuses f.status)
    ∷ ","
    ∷ quoted "timestamp" (timestamp f)
    ∷ ",\"location\":{"
    ∷ quoted "city" (get cities f.place)
    ∷ ","
    ∷ quoted "country" (get countries f.place)
    ∷ ","
    ∷ quoted "postal" (padded 5 f.postal)
    ∷ "}},\"package\":{\"weight_grams\":"
    ∷ decimal 20 f.w
    ∷ ",\"pieces\":"
    ∷ decimal 20 f.p
    ∷ "},\"meta\":{\"source\":\"carrier-push\",\"attempt\":1}}"
    ∷ [])

-- One turn's draws, in order, and the state that they leave.
unfoldable pub draw : ℕ → Fields × ℕ
draw s0 =
    let s1 = advance s0 in
    let s2 = advance s1 in
    let s3 = advance s2 in
    let s4 = advance s3 in
    let s5 = advance s4 in
    let s6 = advance s5 in
    let s7 = advance s6 in
    let s8 = advance s7 in
    (
      record {
        carrier = output s1 % 6;
        status = output s2 % 6;
        place = output s3 % 6;
        w = 500 + output s4 % 40000;
        p = 1 + output s5 % 5;
        hour = output s6 % 24;
        minute = output s7 % 60;
        postal = output s8 % 100000;
      },
      s8,
    )

-- The turns from `i` on, `count` of them, from a state.
abbrev pub turns : ℕ → ℕ → ℕ → List String
turns zero i state = []
turns (suc count) i state = let (f, state') = draw state in render i f ∷ turns count (suc i) state'

abbrev pub build_payloads : ℕ → List String
build_payloads n = turns n 0 seed_state
