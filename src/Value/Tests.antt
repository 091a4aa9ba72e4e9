-- ===== src/Value/Tests.antt =====
-- Values, their texts and their comparison on concrete inputs.
use device_service_zigbee.Prelude.{◌≡◌, refl, true, some, none, List, [], ◌∷◌, codes, arith, str_eq}
use device_service_zigbee.Prelude.Int.{pos, negsuc}
use device_service_zigbee.Prelude.Outcome.{done, fault, bad_arithmetic}
use device_service_zigbee.Value.{w16, Value, FloatText, string_result, int_result, f32_result}
use device_service_zigbee.Value.Scan.{scan_unsigned, scan_signed}
use device_service_zigbee.Value.RoundTrip.{ReadsBack, populate-to_string}
use device_service_zigbee.Value.Equal.{CommandResult, FloatEq}

abbrev no_text : FloatText
no_text = record { print32 = λ b. []; scan32 = λ s. none; print64 = λ b. []; scan64 = λ s. none }

abbrev bitwise : FloatEq
bitwise = record { eq32 = str_eq; eq64 = str_eq }

scan_negative : scan_signed 8 (codes " -128 C") ≡ done (some (negsuc 127))
unfolding scan_signed
scan_negative = refl

-- a leading 0 makes "%i" read octal digits, and "%u" does not care
scan_octal : scan_signed 8 (codes "010") ≡ done (some (pos 8))
unfolding scan_signed
scan_octal = refl

scan_decimal : scan_unsigned 8 (codes "010") ≡ done (some 10)
unfolding scan_unsigned
scan_decimal = refl

scan_wide : scan_unsigned 8 (codes "256") ≡ fault bad_arithmetic
unfolding scan_unsigned
scan_wide = refl

abbrev pi : Value
pi = f32_result (0xdb ∷ 0x0f ∷ 0x49 ∷ 0x40 ∷ [])

populate-to_string_example : ReadsBack no_text pi true
populate-to_string_example = populate-to_string no_text pi (omega arith)

abbrev readings : List CommandResult
readings =
    record { origin = 7; value = int_result w16 (negsuc 40) }
    ∷ record { origin = 0; value = string_result (codes "on") }
    ∷ []
