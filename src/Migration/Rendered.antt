-- ===== src/Migration/Rendered.antt =====
-- The `format!` of `build_payloads` writes the text of its document.
use Prim.Native.String.{◌++◌ as append}
use text.Mathlib.TextLemmas.{append_assoc, nil-append}
use skip_locked.Prelude.{
  ℕ, ◌/◌, ◌%◌, ◌<◌, ltb, ◌^◌, true, arith, ◌≡◌, refl, ap, ◌∙◌, some, String, [], ◌∷◌,
}
use skip_locked.Migration.Payloads.{
  Fields, carriers, cities, countries, get, padded, decimal, timestamp, digit, quoted, concat,
  render, webhook,
}
use skip_locked.Migration.{statuses}
use skip_locked.Migration.Document.{print, print_members, document, raw_of}

-- The literals of the format string, taken apart.
value_mark : (x : String) → append "\":\"" x ≡ append "\":" (append "\"" x)
value_mark x = append_assoc "\":" "\"" x

event_mark :
    (x : String)
    → append ",\"event\":{" x
      ≡ append "," (append "\"" (append "event" (append "\":" (append "{" x))))
event_mark x =
    append_assoc "," "\"event\":{" x
    ∙ ap (append ",") (
        append_assoc "\"" "event\":{" x
        ∙ ap (append "\"")
            (append_assoc "event" "\":{" x ∙ ap (append "event") (append_assoc "\":" "{" x)))

location_mark :
    (x : String)
    → append ",\"location\":{" x
      ≡ append "," (append "\"" (append "location" (append "\":" (append "{" x))))
location_mark x =
    append_assoc "," "\"location\":{" x
    ∙ ap (append ",") (
        append_assoc "\"" "location\":{" x
        ∙ ap (append "\"")
            (append_assoc "location" "\":{" x ∙ ap (append "location") (append_assoc "\":" "{" x)))

package_mark :
    (x : String)
    → append "}},\"package\":{\"weight_grams\":" x
      ≡ append "}" (
          append "}" (
            append "," (
              append "\"" (
                append "package" (
                  append "\":"
                    (append "{" (append "\"" (append "weight_grams" (append "\":" x)))))))))
package_mark x =
    append_assoc "}" "},\"package\":{\"weight_grams\":" x
    ∙ ap (append "}") (
        append_assoc "}" ",\"package\":{\"weight_grams\":" x
        ∙ ap (append "}") (
            append_assoc "," "\"package\":{\"weight_grams\":" x
            ∙ ap (append ",") (
                append_assoc "\"" "package\":{\"weight_grams\":" x
                ∙ ap (append "\"") (
                    append_assoc "package" "\":{\"weight_grams\":" x
                    ∙ ap (append "package") (
                        append_assoc "\":" "{\"weight_grams\":" x
                        ∙ ap (append "\":") (
                            append_assoc "{" "\"weight_grams\":" x
                            ∙ ap (append "{") (
                                append_assoc "\"" "weight_grams\":" x
                                ∙ ap (append "\"") (append_assoc "weight_grams" "\":" x))))))))

pieces_mark :
    (x : String)
    → append ",\"pieces\":" x ≡ append "," (append "\"" (append "pieces" (append "\":" x)))
pieces_mark x =
    append_assoc "," "\"pieces\":" x
    ∙ ap (append ",")
        (append_assoc "\"" "pieces\":" x ∙ ap (append "\"") (append_assoc "pieces" "\":" x))

-- The format string and the document, for any texts in their places.
same_text :
    (c t s ts ci co po w p : String)
    → concat (
        "{"
        ∷ quoted "carrier_code" c
        ∷ ","
        ∷ quoted "tracking_number" t
        ∷ ",\"event\":{"
        ∷ quoted "status" s
        ∷ ","
        ∷ quoted "timestamp" ts
        ∷ ",\"location\":{"
        ∷ quoted "city" ci
        ∷ ","
        ∷ quoted "country" co
        ∷ ","
        ∷ quoted "postal" po
        ∷ "}},\"package\":{\"weight_grams\":"
        ∷ w
        ∷ ",\"pieces\":"
        ∷ p
        ∷ "},\"meta\":{\"source\":\"carrier-push\",\"attempt\":1}}"
        ∷ [])
      ≡ concat (
          "{" ∷ "" ∷ "\"" ∷ "carrier_code" ∷ "\":" ∷ "\"" ∷ c ∷ "\"" ∷ "," ∷ "\""
          ∷ "tracking_number" ∷ "\":" ∷ "\"" ∷ t ∷ "\"" ∷ "," ∷ "\"" ∷ "event" ∷ "\":" ∷ "{" ∷ ""
          ∷ "\"" ∷ "status" ∷ "\":" ∷ "\"" ∷ s ∷ "\"" ∷ "," ∷ "\"" ∷ "timestamp" ∷ "\":" ∷ "\"" ∷ ts
          ∷ "\"" ∷ "," ∷ "\"" ∷ "location" ∷ "\":" ∷ "{" ∷ "" ∷ "\"" ∷ "city" ∷ "\":" ∷ "\"" ∷ ci
          ∷ "\"" ∷ "," ∷ "\"" ∷ "country" ∷ "\":" ∷ "\"" ∷ co ∷ "\"" ∷ "," ∷ "\"" ∷ "postal" ∷ "\":"
          ∷ "\"" ∷ po ∷ "\"" ∷ "}" ∷ "}" ∷ "," ∷ "\"" ∷ "package" ∷ "\":" ∷ "{" ∷ "" ∷ "\""
          ∷ "weight_grams" ∷ "\":" ∷ w ∷ "," ∷ "\"" ∷ "pieces" ∷ "\":" ∷ p ∷ "}" ∷ "," ∷ "\""
          ∷ "meta" ∷ "\":" ∷ "{" ∷ "" ∷ "\"" ∷ "source" ∷ "\":" ∷ "\"" ∷ "carrier-push" ∷ "\"" ∷ ","
          ∷ "\"" ∷ "attempt" ∷ "\":" ∷ "1" ∷ "}" ∷ "}" ∷ [])
same_text c t s ts ci co po w p =
    simp
      (append_assoc, nil-append, value_mark, event_mark, location_mark, package_mark, pieces_mark)

pub raw_of-document :
    (i : ℕ) (f : Fields) → f.w < 2 ^ 63 → f.p < 2 ^ 63 → raw_of (document i f) ≡ some (webhook i f)
raw_of-document i f hw hp =
    let tw : ltb f.w (2 ^ 63) ≡ true = ground arith in
    let tp : ltb f.p (2 ^ 63) ≡ true = ground arith in rw (tw, tp) refl

pub render-document : (i : ℕ) (f : Fields) → render i f ≡ print (document i f) ""
unfolding render print print_members
render-document i f =
    same_text (get carriers f.carrier) (append "1Z999AA" (padded 10 i)) (get statuses f.status)
      (timestamp f) (get cities f.place) (get countries f.place) (padded 5 f.postal)
      (decimal 20 f.w) (decimal 20 f.p)

abbrev pub time_of_day : ℕ → ℕ → String
time_of_day h m =
    append (append (digit (h / 10)) (digit (h % 10)))
      (append ":" (append (append (digit (m / 10)) (digit (m % 10))) ":00Z"))

-- A time of the day on the day of the payloads, as RFC 3339 writes it.
abbrev pub stamp : ℕ → ℕ → String
stamp h m = append "2026-06-16T" (time_of_day h m)

two_digits : (n : ℕ) → n < 60 → padded 2 n ≡ append (digit (n / 10)) (digit (n % 10))
two_digits n h =
    let small : ltb n 100 ≡ true = ground arith in
    let tens : n / 10 % 10 ≡ n / 10 = omega arith in rw (small, nil-append, tens) refl

pub timestamp-stamp :
    (f : Fields) → f.hour < 24 → f.minute < 60 → timestamp f ≡ stamp f.hour f.minute
timestamp-stamp f h m = rw (two_digits f.hour (omega arith), two_digits f.minute m) refl
