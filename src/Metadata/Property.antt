-- ===== src/Metadata/Property.antt =====
-- device-sdk-c/src/c/edgex-rest.c: the properties of resources. LEGIBLE_FLOATS is not defined. Logging is left out.
pub mod RoundTrip
use device_service_zigbee.Prelude.{
  ℕ, Bool, true, false, ◌&&◌, ◌||◌, not, Option, none, some, List, [], ◌∷◌, Bytes, codes,
  if◌then◌else◌, ltb, length, str_eq, ◌==◌,
}
use device_service_zigbee.Prelude.Int.{ℤ, pos}
use device_service_zigbee.Prelude.Outcome.{Outcome, done, fault, out_of_bounds, ◌>>=◌}
use device_service_zigbee.Value.{PropertyType, uint, int, float32, float64, signed_decimal}
use device_service_zigbee.Transform.{TransformArg, PropertyValue}
use device_service_zigbee.Metadata.Types.{propertytype_tostring, propertytype_fromstring}
use device_service_zigbee.Metadata.Json.{
  Json, text_value, text_or_null, make, string_at, get_string, get_object,
}
use device_service_zigbee.Metadata.Arguments.{
  NumberText, is_float, no_arg, int_arg, float_arg, arg_of, transform_arg, arg_text,
}

-- the members of `edgex_propertyvalue` that transforms and commands do not read
pub record PropertyTexts : Type 0 where
  pub minimum : Bytes
  pub maximum : Bytes
  pub default_value : Bytes
  pub lsb : Bytes
  pub precision : Bytes
  pub media_type : Bytes

-- `edgex_units`
pub record Units : Type 0 where
  pub type : Bytes
  pub readwrite : Bytes
  pub default_value : Bytes

-- `edgex_profileproperty`
pub record ProfileProperty : Type 0 where
  pub value : PropertyValue
  pub texts : PropertyTexts
  pub units : Units

-- `strchr (s, c)`
abbrev pub has : Bytes → ℕ → Bool
has [] c = false
has (d ∷ s) c = d == c || has s c

-- `rwstrings`
abbrev pub rw_string : Bool → Bool → Bytes
rw_string false false = []
rw_string false true = codes "W"
rw_string true false = codes "R"
rw_string true true = codes "RW"

-- what `readWrite` says, and what its absence says
abbrev pub rw_of : Option Bytes → Bool × Bool
rw_of none = (true, true)
rw_of (some []) = (true, true)
rw_of (some (c ∷ s)) = (has (c ∷ s) b'R', has (c ∷ s) b'W')

-- `!(fe && (strcmp (fe, "eNotation") == 0))`
abbrev pub binary_of : Option Bytes → Bool
binary_of none = true
binary_of (some s) = not (str_eq s (codes "eNotation"))

-- a mask or a shift for a float
abbrev pub bad_bits : PropertyType → TransformArg → TransformArg → Bool
bad_bits t mask shift = (mask.enabled || shift.enabled) && is_float t

module _ (j : Json) where
  -- the last part of `propertyvalue_read`
  unfoldable pub value_read :
      Option j.Object
      → PropertyType
      → TransformArg
      → TransformArg
      → TransformArg
      → TransformArg
      → TransformArg
      → PropertyValue × PropertyTexts
  value_read obj t scale offset base mask shift = (
    record {
      type = t;
      readable = (rw_of (string_at j obj (codes "readWrite"))).0;
      writable = (rw_of (string_at j obj (codes "readWrite"))).1;
      mask = mask;
      shift = shift;
      scale = scale;
      offset = offset;
      base = base;
      assertion = some (get_string j obj (codes "assertion"));
      float_as_binary = binary_of (string_at j obj (codes "floatEncoding"));
    },
    record {
      minimum = get_string j obj (codes "minimum");
      maximum = get_string j obj (codes "maximum");
      default_value = get_string j obj (codes "defaultValue");
      lsb = get_string j obj (codes "lsb");
      precision = get_string j obj (codes "precision");
      media_type = get_string j obj (codes "mediaType");
    },
  )

  -- the test of `ok` behind the five arguments
  unfoldable pub with_args :
      Option j.Object
      → PropertyType
      → Option TransformArg
      → Option TransformArg
      → Option TransformArg
      → Option TransformArg
      → Option TransformArg
      → Option (PropertyValue × PropertyTexts)
  with_args obj t (some scale) (some offset) (some base) (some mask) (some shift) =
      if bad_bits t mask shift then none else some (value_read obj t scale offset base mask shift)
  with_args obj t _ _ _ _ _ = none

  -- the members that `propertyvalue_write` sets, with the texts of the arguments
  abbrev pub value_fields :
      PropertyValue
      → PropertyTexts
      → Option Bytes
      → Option Bytes
      → Option Bytes
      → Option Bytes
      → Option Bytes
      → List (Bytes × Option j.Value)
  value_fields e x mask shift scale offset base =
      (codes "type", text_value j (propertytype_tostring e.type))
      ∷ (codes "readWrite", text_value j (rw_string e.readable e.writable))
      ∷ (codes "minimum", text_value j x.minimum)
      ∷ (codes "maximum", text_value j x.maximum)
      ∷ (codes "defaultValue", text_value j x.default_value)
      ∷ (codes "lsb", text_value j x.lsb)
      ∷ (codes "mask", text_or_null j mask)
      ∷ (codes "shift", text_or_null j shift)
      ∷ (codes "scale", text_or_null j scale)
      ∷ (codes "offset", text_or_null j offset)
      ∷ (codes "base", text_or_null j base)
      ∷ (codes "assertion", text_or_null j e.assertion)
      ∷ (codes "precision", text_value j x.precision)
      ∷ (
        codes "floatEncoding",
        text_value j (if e.float_as_binary then codes "base64" else codes "eNotation"),
      )
      ∷ (codes "mediaType", text_value j x.media_type)
      ∷ []

  -- `units_read`
  abbrev pub units_read : Option j.Object → Units
  units_read obj = record {
    type = get_string j obj (codes "type");
    readwrite = get_string j obj (codes "readWrite");
    default_value = get_string j obj (codes "defaultValue");
  }

  abbrev pub unit_fields : Units → List (Bytes × Option j.Value)
  unit_fields e =
      (codes "type", text_value j e.type)
      ∷ (codes "readWrite", text_value j e.readwrite)
      ∷ (codes "defaultValue", text_value j e.default_value)
      ∷ []

  -- `units_write`
  abbrev pub units_write : Units → j.Object
  units_write e = make j (unit_fields e)

module _ (n : NumberText) (j : Json) where
  abbrev pub arg_at : Option j.Object → PropertyType → Bytes → Option TransformArg
  arg_at obj t k = transform_arg n t (string_at j obj k)

  -- `propertyvalue_read` behind its type
  unfoldable pub read_typed :
      Option j.Object → PropertyType → Option (PropertyValue × PropertyTexts)
  read_typed obj t =
      with_args j obj t (arg_at obj t (codes "scale")) (arg_at obj t (codes "offset"))
        (arg_at obj t (codes "base")) (arg_at obj t (codes "mask")) (arg_at obj t (codes "shift"))

  -- `propertyvalue_read`: `none` where it returns NULL
  unfoldable pub propertyvalue_read :
      Option j.Object → Outcome (Option (PropertyValue × PropertyTexts))
  propertyvalue_read obj = do
    t ← propertytype_fromstring (string_at j obj (codes "type"))
    elim t [ none ↦ done none | some t' ↦ done (read_typed obj t') ]

  -- `propertyvalue_write`
  unfoldable pub propertyvalue_write : PropertyValue → PropertyTexts → Outcome j.Object
  propertyvalue_write e x = do
    mask ← arg_text n e.mask e.type
    shift ← arg_text n e.shift e.type
    scale ← arg_text n e.scale e.type
    offset ← arg_text n e.offset e.type
    base ← arg_text n e.base e.type
    done (make j (value_fields j e x mask shift scale offset base))

  -- `profileproperty_read`
  unfoldable pub profileproperty_read : Option j.Object → Outcome (Option ProfileProperty)
  profileproperty_read obj = do
    value ← propertyvalue_read (get_object j obj (codes "value"))
    elim value [
      | none ↦ done none
      | some (v, x) ↦ done (
          some (record {
            value = v;
            texts = x;
            units = units_read j (get_object j obj (codes "units"));
          }))
    ]

  -- `profileproperty_write`
  unfoldable pub profileproperty_write : ProfileProperty → Outcome j.Object
  profileproperty_write e = do
    value ← propertyvalue_write e.value e.texts
    done (
        make j (
          (codes "value", some (j.object value))
          ∷ (codes "units", some (j.object (units_write j e.units)))
          ∷ []))
