-- ===== src/Transform/Integers.antt =====
-- Integer readings through transform.c: what is stored, and which profiles the way in undoes.
use device_service_zigbee.Prelude.{
  ℕ, ◌^◌, ◌-◌, ◌<◌, ◌≡◌, ◌⊎◌, inl, inr, refl, true, none, some, arith, ltb, ltb→lt, lt→ltb,
  Bool-cases,
}
use device_service_zigbee.Prelude.Int.{ℤ, pos, negsuc}
use device_service_zigbee.Prelude.Outcome.{done}
use device_service_zigbee.Value.{
  Width, w8, w16, w32, w64, bits, PropertyType, uint, int, Value, uint_result, int_result, type_of,
  FitsSigned, IsValue,
}
use device_service_zigbee.Value.Equal.{CommandResult}
use device_service_zigbee.Transform.{
  PropertyValue, NvPairs, LongDouble, transforms_on, get_int, set_int, set_unsigned, set_signed,
  overflow, int_out, transform_out_int, out_value, outgoing, out_of_type,
}
use device_service_zigbee.Transform.Arith.{of_word, Fits}

abbrev pub IsInt : PropertyType → Type 0
IsInt (uint w) = Unit
IsInt (int w) = Unit
IsInt _ = ⊥

-- the numbers of an integer type
abbrev pub InRange : PropertyType → ℤ → Type 0
InRange (uint w) (pos n) = n < 2 ^ bits w
InRange (int w) z = FitsSigned (bits w) z
InRange _ _ = ⊥

-- the value of the type that stands for the number
abbrev pub Holds : PropertyType → Value → ℤ → Type 0
Holds t v y = (get_int v t ≡ done y) × IsValue v × (type_of v ≡ t)

abbrev pub Sets : PropertyType → ℤ → Type 0
Sets t y =
    ((set_int y t ≡ done none) × ¬ InRange t y)
    ⊎ ((v : Value) × (set_int y t ≡ done (some v)) × InRange t y × Holds t v y)

get_uint : (w : Width) (n : ℕ) → n < 2 ^ 63 → get_int (uint_result w n) (uint w) ≡ done (pos n)
unfolding get_int of_word
get_uint w8 n h = refl
get_uint w16 n h = refl
get_uint w32 n h = refl
get_uint w64 n h = rw (lt→ltb n (2 ^ 63) h)

get_sint : (w : Width) (z : ℤ) → get_int (int_result w z) (int w) ≡ done z
unfolding get_int
get_sint w8 z = refl
get_sint w16 z = refl
get_sint w32 z = refl
get_sint w64 z = refl

pub set_int-Sets : (t : PropertyType) (y : ℤ) → IsInt t → Fits y → Sets t y
unfolding set_int set_unsigned set_signed
set_int-Sets (uint w) (negsuc n) h f = inl (refl, λ k. k)
set_int-Sets (uint w) (pos n) h f = elim (Bool-cases (ltb n (2 ^ bits w))) [
  | inl e ↦ inr (
    uint_result w n,
    ground (arith, e),
    ltb→lt n (2 ^ bits w) e,
    (get_uint w n f, ltb→lt n (2 ^ bits w) e, refl),
  )
  | inr e ↦ inl (ground (arith, e), λ k. ground (arith, e))
]
set_int-Sets (int w) (pos n) h f = elim (Bool-cases (ltb n (2 ^ (bits w - 1)))) [
  | inl e ↦ inr (
    int_result w (pos n),
    ground (arith, e),
    ltb→lt n (2 ^ (bits w - 1)) e,
    (get_sint w (pos n), ltb→lt n (2 ^ (bits w - 1)) e, refl),
  )
  | inr e ↦ inl (ground (arith, e), λ k. ground (arith, e))
]
set_int-Sets (int w) (negsuc n) h f = elim (Bool-cases (ltb n (2 ^ (bits w - 1)))) [
  | inl e ↦ inr (
    int_result w (negsuc n),
    ground (arith, e),
    ltb→lt n (2 ^ (bits w - 1)) e,
    (get_sint w (negsuc n), ltb→lt n (2 ^ (bits w - 1)) e, refl),
  )
  | inr e ↦ inl (ground (arith, e), λ k. ground (arith, e))
]
set_int-Sets _ y h f = absurd h

module _ (m : LongDouble) where
  pub out_int :
      (t : PropertyType) (pv : PropertyValue) (maps : NvPairs) (v : Value)
      → IsInt t
      → out_of_type m t pv maps v ≡ transform_out_int m pv v
  unfolding out_of_type
  out_int (uint w) pv maps v h = refl
  out_int (int w) pv maps v h = refl
  out_int _ pv maps v h = absurd h

  -- A reading of an integer type that is to be transformed gets the result of the arithmetic, as a
  -- value of its type, or the text "overflow"; and it is the text exactly if the result is no number
  -- of the type. The arithmetic is assumed to have a meaning in C.
  pub outgoing_int :
      (r : CommandResult) (pv : PropertyValue) (maps : NvPairs) (z y : ℤ)
      → IsInt pv.type
      → transforms_on pv ≡ true
      → get_int r.value pv.type ≡ done z
      → int_out m pv z ≡ done y
      → Fits y
      → ((outgoing m r pv maps ≡ done (record r { value = overflow })) × ¬ InRange pv.type y)
        ⊎ ((v : Value) × (outgoing m r pv maps ≡ done (record r { value = v }))
            × InRange pv.type y
            × Holds pv.type v y)
  unfolding outgoing transform_out_int out_value
  outgoing_int r pv maps z y i on g o f = elim (set_int-Sets pv.type y i f) [
    | inl (e, n) ↦ inl (ground (arith, out_int pv.type pv maps r.value i, on, g, o, e), n)
    | inr (v, e, n, h) ↦
        inr (v, ground (arith, out_int pv.type pv maps r.value i, on, g, o, e), n, h)
  ]
