-- ===== src/Migration/Document.antt =====
-- examples/bench_migration.rs: JSON documents as trees, their compact text, and what `derive(Deserialize)` reads of one;
-- the document that the `format!` of `build_payloads` means to write.
use Prim.Native.String.{◌++◌ as append}
use skip_locked.Prelude.{
  ℕ, ◌^◌, ltb, Bool, true, false, Option, none, some, String, str_eq, if◌then◌else◌,
}
use skip_locked.Prelude.Int.{ℤ, pos}
use skip_locked.Migration.{Raw, RawEvent, RawLoc, RawPackage, statuses, ◌>>=◌}
use skip_locked.Migration.Payloads.{
  Fields, carriers, cities, countries, get, padded, decimal, timestamp,
}

mutual
  -- A JSON value, as far as the payloads go.
  pub data Tree : Type 0 where
    quote : String → Tree
    number : ℕ → Tree
    object : Members → Tree

  pub data Members : Type 0 where
    end : Members
    member : String → Tree → Members → Members

unfoldable mutual
  -- The compact text of a value, before a rest. No text in it needs an escape.
  pub print : Tree → String → String
  print (quote s) rest = append "\"" (append s (append "\"" rest))
  print (number n) rest = append (decimal 20 n) rest
  print (object ms) rest = append "{" (print_members "" ms (append "}" rest))

  pub print_members : String → Members → String → String
  print_members comma end rest = rest
  print_members comma (member key t ms) rest =
      append comma (append "\"" (append key (append "\":" (print t (print_members "," ms rest)))))

abbrev pub has_member : String → Members → Bool
has_member key end = false
has_member key (member k t ms) = if str_eq k key then true else has_member key ms

-- A field that stands twice is an error, as is one that is missing.
abbrev pub value_of : String → Members → Option Tree
value_of key end = none
value_of key (member k t ms) =
    if str_eq k key then (if has_member key ms then none else some t) else value_of key ms

abbrev pub as_text : Tree → Option String
as_text (quote s) = some s
as_text _ = none

-- A number that is not in the range of an `i64` is an error.
abbrev pub as_number : Tree → Option ℤ
as_number (number n) = if ltb n (2 ^ 63) then some (pos n) else none
as_number _ = none

abbrev pub as_object : Tree → Option Members
as_object (object ms) = some ms
as_object _ = none

abbrev pub loc_of : Members → Option RawLoc
loc_of ms = do
  city ← value_of "city" ms >>= as_text
  country ← value_of "country" ms >>= as_text
  postal ← value_of "postal" ms >>= as_text
  some (record { city = city; country = country; postal = postal })

abbrev pub event_of : Members → Option RawEvent
event_of ms = do
  status ← value_of "status" ms >>= as_text
  timestamp ← value_of "timestamp" ms >>= as_text
  location ← value_of "location" ms >>= as_object >>= loc_of
  some (record { status = status; timestamp = timestamp; location = location })

abbrev pub package_of : Members → Option RawPackage
package_of ms = do
  weight_grams ← value_of "weight_grams" ms >>= as_number
  pieces ← value_of "pieces" ms >>= as_number
  some (record { weight_grams = weight_grams; pieces = pieces })

-- Every field of the struct must be there; other members are ignored.
abbrev pub raw_of : Tree → Option Raw
raw_of t = do
  ms ← as_object t
  carrier_code ← value_of "carrier_code" ms >>= as_text
  tracking_number ← value_of "tracking_number" ms >>= as_text
  event ← value_of "event" ms >>= as_object >>= event_of
  pack ← value_of "package" ms >>= as_object >>= package_of
  some (record {
    carrier_code = carrier_code;
    tracking_number = tracking_number;
    event = event;
    pack = pack;
  })

-- The document of turn `i`.
abbrev pub document : ℕ → Fields → Tree
document i f = object (
    member "carrier_code" (quote (get carriers f.carrier)) (
      member "tracking_number" (quote (append "1Z999AA" (padded 10 i))) (
        member "event"
          (object (
            member "status" (quote (get statuses f.status)) (
              member "timestamp" (quote (timestamp f)) (
                member "location"
                  (object (
                    member "city" (quote (get cities f.place)) (
                      member "country" (quote (get countries f.place))
                        (member "postal" (quote (padded 5 f.postal)) end))))
                  end))))
          (member "package"
            (object (member "weight_grams" (number f.w) (member "pieces" (number f.p) end)))
            (member "meta"
              (object (member "source" (quote "carrier-push") (member "attempt" (number 1) end)))
              end)))))
