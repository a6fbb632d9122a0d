-- ===== src/Migration.antt =====
-- examples/bench_migration.rs: the webhook's shape and `process`, which parses, validates and
-- normalizes one. The clocks that it reads have no influence on its answer.
pub mod Valid
pub mod Payloads
pub mod Document
pub mod Rendered
pub mod Accepted
pub mod Run
use Prim.Native.String.{len}
use skip_locked.Prelude.{
  ℕ, suc, ◌-◌, ◌*◌, ◌%◌, ◌^◌, List, [], ◌∷◌, Bool, true, false, Option, some, none, String, str_eq,
  any, if◌then◌else◌, ◌==◌, ltb, ◌||◌, not,
}
use skip_locked.Prelude.Int.{ℤ, pos, negsuc, as_i64, leb_ℤ}

pub record RawLoc : Type 0 where
  pub city : String
  pub country : String
  pub postal : String

pub record RawEvent : Type 0 where
  pub status : String
  pub timestamp : String
  pub location : RawLoc

-- The source calls the field `pack` of `Raw` `package`.
pub record RawPackage : Type 0 where
  pub weight_grams : ℤ
  pub pieces : ℤ

pub record Raw : Type 0 where
  pub carrier_code : String
  pub tracking_number : String
  pub event : RawEvent
  pub pack : RawPackage

pub record Normalized : Type 0 where
  pub carrier : String
  pub tracking : String
  pub status : String
  pub ts_millis : ℤ
  pub country : String
  pub billable_grams : ℤ

-- `STATUSES`.
abbrev pub statuses : List String
statuses =
    "created" ∷ "in_transit" ∷ "out_for_delivery" ∷ "delivered" ∷ "exception" ∷ "returned" ∷ []

abbrev pub canonical_status : String → Option String
canonical_status s =
    if str_eq s "created"
    then some "CREATED"
    else if str_eq s "in_transit"
    then some "IN_TRANSIT"
    else if str_eq s "out_for_delivery"
    then some "OUT_FOR_DELIVERY"
    else if str_eq s "delivered"
    then some "DELIVERED"
    else if str_eq s "exception"
    then some "EXCEPTION"
    else if str_eq s "returned"
    then some "RETURNED"
    else none

-- `* 500` on an `i64`, which wraps in the release build that the benchmark runs.
abbrev pub times_500 : ℤ → ℤ
times_500 (pos a) = as_i64 (a * 500)
times_500 (negsuc a) = as_i64 (2 ^ 64 - 1 - (suc a * 500 - 1) % 2 ^ 64)

abbrev pub max_ℤ : ℤ → ℤ → ℤ
max_ℤ a b = if leb_ℤ a b then b else a

abbrev pub billable : RawPackage → ℤ
billable p = max_ℤ p.weight_grams (times_500 p.pieces)

abbrev pub bad_identity : Raw → Bool
bad_identity r = (len r.carrier_code == 0) || ltb (len r.tracking_number) 6

abbrev pub bad_status : Raw → Bool
bad_status r = not (any (str_eq r.event.status) statuses)

abbrev pub bad_package : Raw → Bool
bad_package r = leb_ℤ r.pack.weight_grams (pos 0) || leb_ℤ r.pack.pieces (pos 0)

infixl 5 ◌>>=◌ ◌>>◌
abbrev pub ◌>>=◌ : {A B : Type 0} → Option A → (A → Option B) → Option B
none >>= f = none
some a >>= f = f a

abbrev pub ◌>>◌ : {A B : Type 0} → Option A → Option B → Option B
m >> k = m >>= λ _. k

-- `return Err(())` when the test holds.
abbrev pub guard_not : Bool → Option (Unit {0})
guard_not true = none
guard_not false = some tt

-- `serde_json::from_str`, `DateTime::parse_from_rfc3339` with `timestamp_millis`, and
-- `to_uppercase`.
pub record Parsers : Type 0 where
  pub from_str : String → Option Raw
  pub rfc3339_millis : String → Option ℤ
  pub to_uppercase : String → String

abbrev pub validate : Raw → Option (Unit {0})
validate r = do guard_not (bad_identity r); guard_not (bad_status r); guard_not (bad_package r)

abbrev pub normalize : Parsers → Raw → Option Normalized
normalize p r = do
  status ← canonical_status r.event.status
  ts ← p.rfc3339_millis r.event.timestamp
  some (record {
    carrier = p.to_uppercase r.carrier_code;
    tracking = r.tracking_number;
    status = status;
    ts_millis = ts;
    country = p.to_uppercase r.event.location.country;
    billable_grams = billable r.pack;
  })

unfoldable pub process : Parsers → String → Option Normalized
process p raw = do r ← p.from_str raw; validate r; normalize p r
