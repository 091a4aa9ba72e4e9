-- ===== src/Value.antt =====
-- The typed values of include/edgex/edgex-base.h and their texts: `edgex_value_tostring` and
-- `populateValue` of device-sdk-c/src/c/device.c. A value of the union carries the member that was
-- written. A float is the bytes that it has in memory.
pub mod Scan
pub mod RoundTrip
pub mod Equal
mod Tests
use device_service_zigbee.Prelude.{
  ℕ, suc, ◌^◌, ◌+◌, ◌-◌, ◌≤◌, ◌<◌, Bool, true, false, ◌&&◌, Option, none, some, List, [], ◌∷◌,
  Bytes, codes, if◌then◌else◌, ◌==◌, length, get_elem?, str_case_eq, All, ◌≡◌,
}
use device_service_zigbee.Prelude.Int.{ℤ, pos, negsuc}
use device_service_zigbee.Prelude.Outcome.{Outcome, done, fault, bad_pointer, ◌>>=◌}
use device_service_zigbee.Prelude.Decimal.{decimal}
use mathlib.Core.Option
use device_service_zigbee.Value.Scan.{scan_unsigned, scan_signed}
use device_service_zigbee.Base64.{encode, encode_size, decode, max_decode_size}

pub data Width : Type 0 where
  w8 w16 w32 w64 : Width

abbrev pub bits : Width → ℕ
bits w8 = 8
bits w16 = 16
bits w32 = 32
bits w64 = 64

-- `edgex_propertytype`: `uint w8` is `Uint8`, `int w64` is `Int64`
pub data PropertyType : Type 0 where
  bool string binary : PropertyType
  uint : Width → PropertyType
  int : Width → PropertyType
  float32 float64 : PropertyType

-- `edgex_device_resultvalue` with the type that says which member is in use
pub data Value : Type 0 where
  bool_result : Bool → Value
  string_result : Bytes → Value
  binary_result : Bytes → Value
  uint_result : Width → ℕ → Value
  int_result : Width → ℤ → Value
  f32_result : Bytes → Value
  f64_result : Bytes → Value

abbrev pub type_of : Value → PropertyType
type_of (bool_result b) = bool
type_of (string_result s) = string
type_of (binary_result b) = binary
type_of (uint_result w n) = uint w
type_of (int_result w z) = int w
type_of (f32_result b) = float32
type_of (f64_result b) = float64

abbrev pub FitsSigned : ℕ → ℤ → Type 0
FitsSigned k (pos n) = n < 2 ^ (k - 1)
FitsSigned k (negsuc n) = n < 2 ^ (k - 1)

-- what the members can hold
abbrev pub IsValue : Value → Type 0
IsValue (bool_result b) = Unit
IsValue (string_result s) = Unit
IsValue (binary_result b) = All (λ c. c < 256) b
IsValue (uint_result w n) = n < 2 ^ bits w
IsValue (int_result w z) = FitsSigned (bits w) z
IsValue (f32_result b) = All (λ c. c < 256) b × (length b ≡ 4)
IsValue (f64_result b) = All (λ c. c < 256) b × (length b ≡ 8)

-- the C library's texts of floats: "%.8e" and "%e", "%.16e" and "%le"
pub record FloatText : Type 0 where
  pub print32 : Bytes → Bytes
  pub scan32 : Bytes → Option Bytes
  pub print64 : Bytes → Bytes
  pub scan64 : Bytes → Option Bytes

-- `%d`
unfoldable pub signed_decimal : ℤ → Bytes
signed_decimal (pos n) = decimal n
signed_decimal (negsuc n) = b'-' ∷ decimal (suc n)

-- a base64 text in a buffer; the source ignores a failure, and then reads a text that is not there
encoded : Bytes → ℕ → Outcome Bytes
encoded b size = elim (encode b size) [ none ↦ fault bad_pointer | some s ↦ done s ]

module _ (f : FloatText) where
  -- `edgex_value_tostring`; `BUFSIZE` is 32
  unfoldable pub value_to_string : Value → Bool → Outcome Bytes
  unfolding encoded
  value_to_string (bool_result b) binfloat = done (if b then codes "true" else codes "false")
  value_to_string (uint_result w n) binfloat = done (decimal n)
  value_to_string (int_result w z) binfloat = done (signed_decimal z)
  value_to_string (f32_result b) binfloat = if binfloat then encoded b 32 else done (f.print32 b)
  value_to_string (f64_result b) binfloat = if binfloat then encoded b 32 else done (f.print64 b)
  value_to_string (string_result s) binfloat = done s
  value_to_string (binary_result b) binfloat = encoded b (encode_size (length b))

  -- `val[i] == '='`
  abbrev pad_at : Bytes → ℕ → Bool
  pad_at s i = elim (get_elem? s i) [ none ↦ false | some c ↦ c == b'=' ]

  bool_text : Bytes → Option Value
  bool_text s =
      if str_case_eq s (codes "true")
      then some (bool_result true)
      else if str_case_eq s (codes "false")
      then some (bool_result false)
      else none

  -- `populateValue`: `none` where it returns false
  unfoldable pub populate_value : PropertyType → Bytes → Outcome (Option Value)
  unfolding bool_text
  populate_value string s = done (some (string_result s))
  populate_value bool s = done (bool_text s)
  populate_value (uint w) s = do r ← scan_unsigned (bits w) s; done (Option.map (uint_result w) r)
  populate_value (int w) s = do r ← scan_signed (bits w) s; done (Option.map (int_result w) r)
  populate_value float32 s =
      let packed = length s == 8 && pad_at s 6 && pad_at s 7 in
      done (Option.map f32_result (if packed then decode 4 s else f.scan32 s))
  populate_value float64 s =
      let packed = length s == 12 && pad_at s 11 in
      done (Option.map f64_result (if packed then decode 8 s else f.scan64 s))
  populate_value binary s = done (Option.map binary_result (decode (max_decode_size s) s))
