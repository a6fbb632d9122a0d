-- ===== src/Migration/Valid.antt =====
-- What `process` accepts and answers.
use Prim.Native.String.{len}
use skip_locked.Prelude.{
  ℕ, ◌*◌, ◌^◌, ◌<◌, ◌≤◌, ◌≡◌, ◌≢◌, ◌↔◌, true, false, some, none, String, str_eq, any, arith,
  Option-cases, inl, inr, if◌then◌else◌, ltb,
}
use skip_locked.Prelude.Int.{ℤ, pos, negsuc, leb_ℤ}
use skip_locked.Migration.{
  Raw, RawPackage, Normalized, Parsers, statuses, canonical_status, billable, process, validate,
}

-- The statuses that the validation accepts are those that the normalization knows.
pub canonical_status-statuses :
    (s : String) → any (str_eq s) statuses ≡ false ↔ (canonical_status s ≡ none)
canonical_status-statuses s = ground arith

-- An accepted pack.
pub record IsPackage (p : RawPackage) : Type 0 where
  pub weight : ℕ
  pub pieces : ℕ
  pub weighs : 0 < weight
  pub counts : 0 < pieces
  pub weight_grams_is : p.weight_grams ≡ pos weight
  pub pieces_is : p.pieces ≡ pos pieces

pub record IsValid (r : Raw) : Type 0 where
  pub named : 0 < len r.carrier_code
  pub tracked : 6 ≤ len r.tracking_number
  pub known : any (str_eq r.event.status) statuses ≡ true
  pub packed : IsPackage r.pack

pub leb_ℤ-pos : (z : ℤ) → leb_ℤ z (pos 0) ≡ false → (n : ℕ) × (0 < n) × (z ≡ pos n)
leb_ℤ-pos (pos n) h = (n, ground arith, ground arith)
leb_ℤ-pos (negsuc n) h = ground arith

IsPackage-cases :
    (p : RawPackage)
    → leb_ℤ p.weight_grams (pos 0) ≡ false
    → leb_ℤ p.pieces (pos 0) ≡ false
    → IsPackage p
IsPackage-cases p hw hp =
    let (w, w0, we) = leb_ℤ-pos p.weight_grams hw in
    let (n, n0, ne) = leb_ℤ-pos p.pieces hp in
    record {
      weight = w;
      pieces = n;
      weighs = w0;
      counts = n0;
      weight_grams_is = we;
      pieces_is = ne;
    }

pub validate-IsValid : (r : Raw) → validate r ≡ some tt → IsValid r
validate-IsValid r h = record {
  named = ground arith;
  tracked = ground arith;
  known = ground arith;
  packed = IsPackage-cases r.pack (ground arith) (ground arith);
}

pub IsValid-validate : (r : Raw) → IsValid r → validate r ≡ some tt
IsValid-validate r v = ground arith

-- `process` answers exactly when the text parses to a valid webhook with a timestamp that parses,
-- and then with the webhook's identity, its status in canonical spelling and the heavier of its weight and 500 grams a piece.
pub process-normalizes :
    (p : Parsers) (raw : String) (n : Normalized)
    → process p raw ≡ some n
    → (r : Raw) × (p.from_str raw ≡ some r)
      × IsValid r
      × (canonical_status r.event.status ≡ some n.status)
      × (p.rfc3339_millis r.event.timestamp ≡ some n.ts_millis)
      × (n.tracking ≡ r.tracking_number)
      × (n.carrier ≡ p.to_uppercase r.carrier_code)
      × (n.country ≡ p.to_uppercase r.event.location.country)
      × (n.billable_grams ≡ billable r.pack)
unfolding process
process-normalizes p raw n h = elim (Option-cases (p.from_str raw)) [
  | inl e ↦ ground arith
  | inr (r, e) ↦
      let v : validate r ≡ some tt = ground arith in
      (
        r,
        e,
        validate-IsValid r v,
        ground arith,
        ground arith,
        ground arith,
        ground arith,
        ground arith,
        ground arith,
      )
]

-- A valid webhook whose timestamp parses is accepted: the lookup of the canonical status, which could fail, does not.
pub process-accepts :
    (p : Parsers) (raw : String) (r : Raw) (ts : ℤ)
    → p.from_str raw ≡ some r
    → IsValid r
    → p.rfc3339_millis r.event.timestamp ≡ some ts
    → process p raw ≢ none
unfolding process
process-accepts p raw r ts e v t h =
    ground (arith, canonical_status-statuses r.event.status, v.known, IsValid-validate r v)

-- No piece is billed below 500 grams and no gram for free, while 500 grams a piece fit an `i64`.
pub billable_lem :
    (w n : ℕ)
    → n * 500 < 2 ^ 63
    → billable (record { weight_grams = pos w; pieces = pos n })
      ≡ pos (if ltb w (n * 500) then n * 500 else w)
billable_lem w n h = ground arith
