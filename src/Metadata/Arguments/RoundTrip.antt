-- ===== src/Metadata/Arguments/RoundTrip.antt =====
-- What is read of arguments that were written.
use device_service_zigbee.Prelude.{
  ℕ, suc, ◌≡◌, ◌⊎◌, inl, inr, refl, sym, ap, ◌∙◌, Bool, true, false, Option, none, some, [], ◌∷◌,
  Bytes, arith, All,
}
use device_service_zigbee.Prelude.Int.{ℤ, pos, negsuc}
use device_service_zigbee.Prelude.Outcome.{done}
use device_service_zigbee.Prelude.Decimal.{decimal, IsDigit, decimal-IsDigit, decimal-cons}
use device_service_zigbee.Value.{
  PropertyType, bool, string, binary, uint, int, float32, float64, signed_decimal, FitsSigned,
}
use device_service_zigbee.Transform.{TransformArg}
use device_service_zigbee.Metadata.Json.{Json, is_ascii}
use device_service_zigbee.Metadata.Json.Fields.{IsTextOrNull}
use device_service_zigbee.Metadata.Arguments.{
  NumberText, is_float, no_arg, int_arg, transform_arg, arg_text,
}

abbrev pub is_integer : PropertyType → Bool
is_integer (uint w) = true
is_integer (int w) = true
is_integer _ = false

-- an argument that its text keeps: none, or an integer of an integer property
abbrev pub IsKept : PropertyType → TransformArg → Type 0
IsKept t a = (a ≡ no_arg) ⊎ ((is_integer t ≡ true) × (z : ℤ) × FitsSigned 64 z × (a ≡ int_arg z))

-- `strtol` reads what "%ld" writes.
abbrev pub ReadsLong : NumberText → Type 0
ReadsLong n = (z : ℤ) → FitsSigned 64 z → n.strtol (signed_decimal z) ≡ some z

digits_ascii : (s : Bytes) → All IsDigit s → is_ascii s ≡ true
digits_ascii [] h = refl
digits_ascii (c ∷ s) h = ground (arith, h.0, digits_ascii s h.1)

signed_decimal_ascii :
    (z : ℤ) → (c : ℕ) × (s : Bytes) × (signed_decimal z ≡ c ∷ s) × (is_ascii (c ∷ s) ≡ true)
unfolding signed_decimal
signed_decimal_ascii (pos k) =
    let (c, s, e) = decimal-cons k in
    (c, s, e, rw e at (digits_ascii (decimal k) (decimal-IsDigit k)))
signed_decimal_ascii (negsuc k) =
    (b'-', decimal (suc k), refl, digits_ascii (decimal (suc k)) (decimal-IsDigit (suc k)))

integer_arg :
    (n : NumberText) (t : PropertyType) (c : ℕ) (s : Bytes) (z : ℤ)
    → is_integer t ≡ true
    → n.strtol (c ∷ s) ≡ some z
    → transform_arg n t (some (c ∷ s)) ≡ some (int_arg z)
integer_arg n bool c s z i h = ground (arith, i)
integer_arg n string c s z i h = ground (arith, i)
integer_arg n binary c s z i h = ground (arith, i)
integer_arg n float32 c s z i h = ground (arith, i)
integer_arg n float64 c s z i h = ground (arith, i)
integer_arg n (uint w) c s z i h = ground (arith, h)
integer_arg n (int w) c s z i h = ground (arith, h)

pub integer-is_float : (t : PropertyType) → is_integer t ≡ true → is_float t ≡ false
integer-is_float bool h = ground (arith, h)
integer-is_float string h = ground (arith, h)
integer-is_float binary h = ground (arith, h)
integer-is_float float32 h = ground (arith, h)
integer-is_float float64 h = ground (arith, h)
integer-is_float (uint w) h = refl
integer-is_float (int w) h = refl

module _ (n : NumberText) (j : Json) where
  pub arg_kept :
      (t : PropertyType) (a : TransformArg)
      → ReadsLong n
      → IsKept t a
      → (m : Option Bytes) × (arg_text n a t ≡ done m)
        × IsTextOrNull j m
        × (transform_arg n t m ≡ some a)
  unfolding arg_text
  arg_kept t a reads (inl off) = (none, ground (arith, off), tt, ap some (sym off))
  arg_kept t a reads (inr (i, z, fits, on)) =
      let (c, s, e, ascii) = signed_decimal_ascii z in
      let read : n.strtol (c ∷ s) ≡ some z = rw e at (reads z fits) in
      (
        some (c ∷ s),
        ground (arith, on, e, integer-is_float t i),
        j.is_text-is_ascii (c ∷ s) ascii,
        integer_arg n t c s z i read ∙ ap some (sym on),
      )
