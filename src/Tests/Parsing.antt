-- ===== src/Tests/Parsing.antt =====
-- A reader of compact JSON texts without escapes, and one of times on the day of the payloads.
use Prim.Native.Char.{code}
use Prim.Native.String.{String, [], ◌∷◌}
use skip_locked.Prelude.{
  ℕ, zero, suc, ◌+◌, ◌*◌, ◌-◌, Bool, Option, none, some, ◌==◌, ◌&&◌, leb, if◌then◌else◌,
}
use text.Mathlib.Text.{starts_with}
use skip_locked.Prelude.Int.{pos}
use skip_locked.Migration.{Parsers, ◌>>=◌}
use skip_locked.Migration.Document.{Tree, quote, number, object, Members, end, member, raw_of}

-- A text up to its closing quote, and what follows.
read_text : String → Option (String × String)
read_text [] = none
read_text (c ∷ s) =
    if code c == 34
    then some ([], s)
    else elim (read_text s) [ none ↦ none | some (t, rest) ↦ some (c ∷ t, rest) ]

is_digit : ℕ → Bool
is_digit n = leb 48 n && leb n 57

read_number : ℕ → String → ℕ × String
unfolding is_digit
read_number acc [] = (acc, [])
read_number acc (c ∷ s) =
    let more = read_number (acc * 10 + (code c - 48)) s in
    if is_digit (code c) then more else (acc, c ∷ s)

-- The rest after a character with this code.
expect : ℕ → String → Option String
expect n [] = none
expect n (c ∷ s) = if code c == n then some s else none

unfoldable mutual
  unfolding read_text read_number expect is_digit

  pub read_value : ℕ → String → Option (Tree × String)
  read_value zero s = none
  read_value (suc fuel) [] = none
  read_value (suc fuel) (c ∷ s) =
      let members = read_members fuel s in
      if code c == 34
      then (read_text s >>= λ (t, rest). some (quote t, rest))
      else if code c == 123
      then (members >>= λ (ms, rest). some (object ms, rest))
      else if is_digit (code c)
      then (let (n, rest) = read_number 0 (c ∷ s) in some (number n, rest))
      else none

  read_members : ℕ → String → Option (Members × String)
  read_members zero s = none
  read_members (suc fuel) s = do
    s1 ← expect 34 s
    (key, s2) ← read_text s1
    s3 ← expect 58 s2
    (t, s4) ← read_value fuel s3
    (ms, s5) ← read_more fuel s4
    some (member key t ms, s5)

  -- The closing brace, or a comma and more members.
  read_more : ℕ → String → Option (Members × String)
  read_more zero s = none
  read_more (suc fuel) [] = none
  read_more (suc fuel) (c ∷ s) =
      let members = read_members fuel s in
      if code c == 125 then some (end, s) else if code c == 44 then members else none

abbrev whole : Option (Tree × String) → Option Tree
whole none = none
whole (some (t, [])) = some t
whole (some (t, c ∷ rest)) = none

abbrev pub readers : Parsers
readers = record {
  from_str = λ s. whole (read_value 20 s) >>= raw_of;
  rfc3339_millis = λ s. if starts_with s "2026-06-16T" then some (pos 1781568000000) else none;
  to_uppercase = λ s. s;
}
