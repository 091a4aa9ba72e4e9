-- ===== src/Metadata/Arguments.antt =====
-- device-sdk-c/src/c/edgex-rest.c: the arguments of transforms as texts. The texts of numbers by the
-- C library are a parameter. Logging is left out.
pub mod RoundTrip
use device_service_zigbee.Prelude.{
  ℕ, Bool, true, false, ◌&&◌, ◌||◌, not, Option, none, some, List, [], ◌∷◌, Bytes, codes,
  if◌then◌else◌, ltb, length, str_eq, ◌==◌,
}
use device_service_zigbee.Prelude.Int.{ℤ, pos}
use device_service_zigbee.Prelude.Outcome.{Outcome, done, fault, out_of_bounds, ◌>>=◌}
use device_service_zigbee.Value.{PropertyType, uint, int, float32, float64, signed_decimal}
use device_service_zigbee.Transform.{TransformArg, PropertyValue}
use device_service_zigbee.Metadata.Types.{propertytype_tostring, propertytype_fromstring}
use device_service_zigbee.Metadata.Json.{
  Json, text_value, text_or_null, make, string_at, get_string, get_object,
}

-- `strtol (s, &end, 0)` and `strtod (s, &end)`, `none` where errno is set or the text goes on behind
-- the number; and "%f"
pub record NumberText : Type 0 where
  pub strtol : Bytes → Option ℤ
  pub strtod : Bytes → Option Bytes
  pub print_double : Bytes → Bytes

abbrev pub is_float : PropertyType → Bool
is_float float32 = true
is_float float64 = true
is_float _ = false

abbrev pub no_arg : TransformArg
no_arg = record { enabled = false; ival = pos 0; dval = [] }

abbrev pub int_arg : ℤ → TransformArg
int_arg z = record { enabled = true; ival = z; dval = [] }

abbrev pub float_arg : Bytes → TransformArg
float_arg d = record { enabled = true; ival = pos 0; dval = d }

module _ (n : NumberText) where
  -- the switch of `get_transformArg`, for a text that is not empty; `none` where it returns false
  abbrev pub arg_of : PropertyType → Bytes → Option TransformArg
  arg_of (uint w) s = elim (n.strtol s) [ none ↦ none | some z ↦ some (int_arg z) ]
  arg_of (int w) s = elim (n.strtol s) [ none ↦ none | some z ↦ some (int_arg z) ]
  arg_of float32 s = elim (n.strtod s) [ none ↦ none | some d ↦ some (float_arg d) ]
  arg_of float64 s = elim (n.strtod s) [ none ↦ none | some d ↦ some (float_arg d) ]
  arg_of _ s = none

  -- `get_transformArg`
  abbrev pub transform_arg : PropertyType → Option Bytes → Option TransformArg
  transform_arg t none = some no_arg
  transform_arg t (some []) = some no_arg
  transform_arg t (some (c ∷ s)) = arg_of t (c ∷ s)

  -- the text in `tmp`, which has 32 characters; a `long` takes 20 of them at most
  unfoldable pub arg_text : TransformArg → PropertyType → Outcome (Option Bytes)
  arg_text a t =
      if a.enabled
      then if is_float t
        then if ltb (length (n.print_double a.dval)) 32
          then done (some (n.print_double a.dval))
          else fault out_of_bounds
        else done (some (signed_decimal a.ival))
      else done none
