-- ===== src/Postgres/Json.antt =====
-- What the source takes from `jsonb` and serde_json. `P` is the type of a payload.
use skip_locked.Prelude.{
  List, [], ◌∷◌, Option, none, some, String, str_eq, Bool, true, false, if◌then◌else◌, ◌≡◌, refl,
  not, ◌&&◌,
}

-- The field of an object with text fields.
abbrev pub field : String → List (String × String) → Option String
field k [] = none
field k ((j, v) ∷ fs) = if str_eq j k then some v else field k fs

abbrev pub has_key : String → List (String × String) → Bool
has_key k [] = false
has_key k ((j, v) ∷ fs) = if str_eq j k then true else has_key k fs

abbrev pub distinct_keys : List (String × String) → Bool
distinct_keys [] = true
distinct_keys ((j, v) ∷ fs) = not (has_key j fs) && distinct_keys fs

-- `object` is `serde_json::json!` of an object with text fields, `text_at p k` is `p[k].as_str()`
-- and `arrow_text p k` is the operator `p->>k` of Postgres.
pub record Json (P : Type 0) : Type 0 where
  pub object : List (String × String) → P
  pub text_at : P → String → Option String
  pub arrow_text : P → String → Option String
  pub text_at-object :
      (fs : List (String × String)) (k : String)
      → distinct_keys fs ≡ true
      → text_at (object fs) k ≡ field k fs
  pub arrow_text-object :
      (fs : List (String × String)) (k : String)
      → distinct_keys fs ≡ true
      → arrow_text (object fs) k ≡ field k fs

-- Payloads that are such objects show that the laws can be met.
abbrev pub text_objects : Json (List (String × String))
text_objects = record {
  object = λ fs. fs;
  text_at = λ fs k. field k fs;
  arrow_text = λ fs k. field k fs;
  text_at-object = λ fs k h. refl;
  arrow_text-object = λ fs k h. refl;
}
