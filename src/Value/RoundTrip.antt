-- ===== src/Value/RoundTrip.antt =====
-- `populateValue` reads back what `edgex_value_tostring` writes.
use device_service_zigbee.Prelude.{◌≡◌, refl, Bool, true, false, some, Bytes, codes, arith}
use device_service_zigbee.Prelude.Outcome.{done}
use device_service_zigbee.Value.{
  Value, bool_result, string_result, binary_result, uint_result, int_result, f32_result, f64_result,
  bits, type_of, IsValue, FloatText, encoded, value_to_string, populate_value, signed_decimal,
}
use device_service_zigbee.Value.Scan.Numbers.{scan_unsigned-decimal, scan_signed-decimal}
use device_service_zigbee.Prelude.Decimal.{decimal}
use device_service_zigbee.Base64.Floats.{text, float_packed, double_packed, binary_packed}

-- the value has a text, and the text reads as the value
abbrev pub ReadsBack : FloatText → Value → Bool → Type 0
ReadsBack f v binfloat =
    (s : Bytes) × (value_to_string f v binfloat ≡ done s)
    × (populate_value f (type_of v) s ≡ done (some v))

-- With floats in base64, every value of every type reads back as itself from its text.
pub populate-to_string : (f : FloatText) (v : Value) → IsValue v → ReadsBack f v true
unfolding value_to_string encoded populate_value
populate-to_string f (bool_result true) h = (codes "true", refl, refl)
populate-to_string f (bool_result false) h = (codes "false", refl, refl)
populate-to_string f (string_result s) h = (s, refl, refl)
populate-to_string f (uint_result w n) h =
    (decimal n, refl, rw (scan_unsigned-decimal (bits w) n h))
populate-to_string f (int_result w z) h =
    (signed_decimal z, refl, rw (scan_signed-decimal (bits w) z h))
populate-to_string f (binary_result b) h =
    let (e, d) = binary_packed b h in (text b, ground (arith, e), ground (arith, d))
populate-to_string f (f32_result b) h =
    let (e, p, d) = float_packed b h.0 h.1 in
    (text b, ground (arith, e), ground (arith, d, p.0, p.1.0, p.1.1))
populate-to_string f (f64_result b) h =
    let (e, p, d) = double_packed b h.0 h.1 in
    (text b, ground (arith, e), ground (arith, d, p.0, p.1))
