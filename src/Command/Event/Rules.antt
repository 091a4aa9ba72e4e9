-- ===== src/Command/Event/Rules.antt =====
-- What the steps of `edgex_data_process_event` do, in words of their own.
use device_service_zigbee.Prelude.{
  ◌≡◌, ◌↔◌, ◌⊎◌, refl, sym, ap, str_eq_iff, false, ◌∙◌, Bool, true, Option, none, some, List, [],
  ◌∷◌, Bytes, arith, Bool-cases, inl, inr,
}
use device_service_zigbee.Prelude.Outcome.{done, ◌>>=◌, >>=-eq-done}
use mathlib.Core.Path.{subst}
use device_service_zigbee.Value.{
  PropertyType, bool, string, binary, uint, int, float32, float64, Value, bool_result,
  string_result, binary_result, uint_result, int_result, f32_result, f64_result, FloatText,
  value_to_string,
}
use device_service_zigbee.Value.Equal.{CommandResult}
use device_service_zigbee.Transform.{LongDouble, outgoing}
use device_service_zigbee.Command.{Row}
use device_service_zigbee.Command.Event.{
  Encoding, json, cbor, ReadingValue, text, bytes, is_binary, uses_cbor, encoding_of, meets,
  transformed, reading_value,
}

-- some row is binary
abbrev pub HasBinary : List Row → Type 0
HasBinary [] = ⊥
HasBinary (row ∷ rows) = (row.pval.type ≡ binary) ⊎ HasBinary rows

is_binary-binary : (t : PropertyType) → (is_binary t ≡ true) ↔ (t ≡ binary)
is_binary-binary bool = (λ h. cc, λ h. ground (arith, h))
is_binary-binary string = (λ h. cc, λ h. ground (arith, h))
is_binary-binary binary = (λ h. refl, λ h. refl)
is_binary-binary (uint w) = (λ h. cc, λ h. ground (arith, h))
is_binary-binary (int w) = (λ h. cc, λ h. ground (arith, h))
is_binary-binary float32 = (λ h. cc, λ h. ground (arith, h))
is_binary-binary float64 = (λ h. cc, λ h. ground (arith, h))

uses_cbor-HasBinary : (rows : List Row) → (uses_cbor rows ≡ true) ↔ HasBinary rows
unfolding uses_cbor
uses_cbor-HasBinary [] = (λ h. ground (arith, h), λ h. absurd h)
uses_cbor-HasBinary (row ∷ rows) =
    let own = is_binary-binary row.pval.type in
    let rest = uses_cbor-HasBinary rows in
    (
      λ h. elim (Bool-cases (is_binary row.pval.type)) [
        | inl t ↦ inl (own.0 t)
        | inr n ↦ inr (rest.0 (ground (arith, n, h)))
      ],
      λ h. elim h [
        | inl e ↦ let t = own.1 e in ground (arith, t)
        | inr k ↦ let t = rest.1 k in ground (arith, t)
      ],
    )

pub encoding_of-HasBinary : (rows : List Row) → (encoding_of rows ≡ cbor) ↔ HasBinary rows
unfolding encoding_of
encoding_of-HasBinary rows =
    let rest = uses_cbor-HasBinary rows in
    (
      λ h. elim (Bool-cases (uses_cbor rows)) [ inl t ↦ rest.0 t | inr n ↦ ground (arith, n, h) ],
      λ h. let t = rest.1 h in ground (arith, t),
    )

pub encoding_agrees : (a b : Encoding) (P : Type 0) → ((a ≡ cbor) ↔ P) → ((b ≡ cbor) ↔ P) → a ≡ b
encoding_agrees json json P h k = refl
encoding_agrees json cbor P h k = h.1 (k.0 refl)
encoding_agrees cbor json P h k = sym (k.1 (h.0 refl))
encoding_agrees cbor cbor P h k = refl

module _ (f : FloatText) (m : LongDouble) (d : Bool) where
  -- the result that transforms make, where they are on
  abbrev pub IsTransformed : Bool → Row → CommandResult → CommandResult → Type 0
  IsTransformed true row r s = outgoing m r row.pval row.map ≡ done s
  IsTransformed false row r s = s ≡ r

  -- the value's text is the one asserted, if one is
  abbrev pub Asserts : Option Bytes → Value → Bool → Type 0
  Asserts none v binfloat = Unit
  Asserts (some []) v binfloat = Unit
  Asserts (some (c ∷ s)) v binfloat = value_to_string f v binfloat ≡ done (c ∷ s)

  -- binary data is given to CBOR as it is, all else as its text
  abbrev pub Shows : Encoding → Row → Value → ReadingValue → Type 0
  Shows cbor row (binary_result b) x = x ≡ bytes b
  Shows _ row v x =
      (s : Bytes) × (value_to_string f v row.pval.float_as_binary ≡ done s) × (x ≡ text s)

  pub transformed-IsTransformed :
      (row : Row) (r s : CommandResult)
      → (transformed f m d row r ≡ done s) ↔ IsTransformed d row r s
  unfolding transformed
  transformed-IsTransformed row r s = elim (Bool-cases d) [
    | inl t ↦
        subst (λ b. (transformed f m b row r ≡ done s) ↔ IsTransformed b row r s) (sym t)
          (λ h. h, λ h. h)
    | inr n ↦
        subst (λ b. (transformed f m b row r ≡ done s) ↔ IsTransformed b row r s) (sym n)
          (λ h. ground (arith, h), λ h. ap done (sym h))
  ]

  pub meets-Asserts :
      (a : Option Bytes) (v : Value) (binfloat : Bool)
      → (meets f m a v binfloat ≡ done true) ↔ Asserts a v binfloat
  unfolding meets
  meets-Asserts none v binfloat = (λ h. tt, λ h. refl)
  meets-Asserts (some []) v binfloat = (λ h. tt, λ h. refl)
  meets-Asserts (some (c ∷ s)) v binfloat = (
    λ h.
        let (reading, e, k) = >>=-eq-done (value_to_string f v binfloat) _ h in
        e ∙ ap done ((str_eq_iff reading (c ∷ s)).0 (ground (arith, k))),
    λ h. ground (arith, h, str_eq_iff (c ∷ s) (c ∷ s)),
  )

  abbrev AsText : Row → Value → ReadingValue → Type 0
  AsText row v x =
      (s : Bytes) × (value_to_string f v row.pval.float_as_binary ≡ done s) × (x ≡ text s)

  text_shown :
      (row : Row) (v : Value) (x : ReadingValue)
      → ((value_to_string f v row.pval.float_as_binary >>= λ s. done (text s)) ≡ done x)
        ↔ AsText row v x
  text_shown row v x = (
    λ h.
        let (s, e, k) = >>=-eq-done (value_to_string f v row.pval.float_as_binary) _ h in
        (s, e, ground (arith, k)),
    λ (s, e, k). ground (arith, e, k),
  )

  pub reading_value-Shows :
      (enc : Encoding) (row : Row) (v : Value) (x : ReadingValue)
      → (reading_value f m enc row v ≡ done x) ↔ Shows enc row v x
  unfolding reading_value
  reading_value-Shows cbor row (binary_result b) x = (λ h. ground (arith, h), λ h. ap done (sym h))
  reading_value-Shows json row (binary_result b) x = text_shown row (binary_result b) x
  reading_value-Shows json row (bool_result b) x = text_shown row (bool_result b) x
  reading_value-Shows cbor row (bool_result b) x = text_shown row (bool_result b) x
  reading_value-Shows json row (string_result b) x = text_shown row (string_result b) x
  reading_value-Shows cbor row (string_result b) x = text_shown row (string_result b) x
  reading_value-Shows json row (uint_result w b) x = text_shown row (uint_result w b) x
  reading_value-Shows cbor row (uint_result w b) x = text_shown row (uint_result w b) x
  reading_value-Shows json row (int_result w b) x = text_shown row (int_result w b) x
  reading_value-Shows cbor row (int_result w b) x = text_shown row (int_result w b) x
  reading_value-Shows json row (f32_result b) x = text_shown row (f32_result b) x
  reading_value-Shows cbor row (f32_result b) x = text_shown row (f32_result b) x
  reading_value-Shows json row (f64_result b) x = text_shown row (f64_result b) x
  reading_value-Shows cbor row (f64_result b) x = text_shown row (f64_result b) x
