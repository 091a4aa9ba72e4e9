-- ===== src/Transform.antt =====
-- device-sdk-c/src/c/transform.c: what the profile of a device has done to a reading on its way out,
-- and to a setting on its way in. The long double functions are a parameter. Reading a member of the
-- union that was not written is a fault, so the types of the result and of the property agree.
pub mod Arith
pub mod Inverse
pub mod Integers
pub mod Order
pub mod Undo
pub mod Mappings
mod Tests
use device_service_zigbee.Prelude.{
  ℕ, suc, ◌^◌, ◌+◌, ◌-◌, Bool, true, false, ◌||◌, Option, none, some, List, [], ◌∷◌, Bytes, codes,
  if◌then◌else◌, ltb, str_eq,
}
use device_service_zigbee.Prelude.Int.{ℤ, pos, negsuc}
use device_service_zigbee.Prelude.Outcome.{Outcome, done, fault, bad_pointer, ◌>>=◌}
use mathlib.Core.Option
use device_service_zigbee.Value.{
  Width, w8, w16, w32, w64, bits, PropertyType, bool, string, binary, uint, int, float32, float64,
  Value, bool_result, string_result, binary_result, uint_result, int_result, f32_result, f64_result,
}
use device_service_zigbee.Value.Equal.{CommandResult}
use device_service_zigbee.Transform.Arith.{
  of_word, and, shift_left, shift_right, add64, sub64, mul64, div64,
}

-- `edgex_transformArg`; the union holds `ival` for integers and `dval`, its bytes, for floats
pub record TransformArg : Type 0 where
  pub enabled : Bool
  pub ival : ℤ
  pub dval : Bytes

-- `edgex_propertyvalue`, without the texts that the code only stores and sends on
pub record PropertyValue : Type 0 where
  pub type : PropertyType
  pub readable : Bool
  pub writable : Bool
  pub mask : TransformArg
  pub shift : TransformArg
  pub scale : TransformArg
  pub offset : TransformArg
  pub base : TransformArg
  pub assertion : Option Bytes
  pub float_as_binary : Bool

-- `edgex_nvpairs`: names with values
abbrev pub NvPairs : Type 0
NvPairs = List (Bytes × Bytes)

-- long double arithmetic, on the bytes of its numbers. `to_float` and `to_double` are `none` outside
-- of the finite range of the type, NaN included; `to_int` and `round` may have no meaning in C.
pub record LongDouble : Type 0 where
  pub of_float : Bytes → Bytes
  pub of_double : Bytes → Bytes
  pub of_int : ℤ → Bytes
  pub to_float : Bytes → Option Bytes
  pub to_double : Bytes → Option Bytes
  pub to_int : Bytes → Outcome ℤ
  pub round : Bytes → Outcome ℤ
  pub pow : Bytes → Bytes → Bytes
  pub log : Bytes → Bytes
  pub add : Bytes → Bytes → Bytes
  pub sub : Bytes → Bytes → Bytes
  pub mul : Bytes → Bytes → Bytes
  pub div : Bytes → Bytes → Bytes

-- `transformsOn`
abbrev pub transforms_on : PropertyValue → Bool
transforms_on pv =
    pv.offset.enabled || pv.scale.enabled || pv.base.enabled || pv.shift.enabled || pv.mask.enabled

-- `checkMapping`
pub check_mapping : NvPairs → Bytes → Option Bytes
check_mapping [] s = none
check_mapping ((name, value) ∷ map) s =
    let rest = check_mapping map s in if str_eq s name then some value else rest

-- `getLLInt`: a uint64_t that is too large for a `long long` wraps
pub get_int : Value → PropertyType → Outcome ℤ
get_int (uint_result w8 n) (uint w8) = done (pos n)
get_int (uint_result w16 n) (uint w16) = done (pos n)
get_int (uint_result w32 n) (uint w32) = done (pos n)
get_int (uint_result w64 n) (uint w64) = done (of_word n)
get_int (int_result w8 z) (int w8) = done z
get_int (int_result w16 z) (int w16) = done z
get_int (int_result w32 z) (int w32) = done z
get_int (int_result w64 z) (int w64) = done z
get_int _ _ = fault bad_pointer

-- `llival >= 0 && llival <= max`; for 64 bits the comparison is between unsigned numbers
set_unsigned : Width → ℤ → Option Value
set_unsigned w (negsuc n) = none
set_unsigned w (pos n) = if ltb n (2 ^ bits w) then some (uint_result w n) else none

-- `llival >= min && llival <= max`
set_signed : Width → ℤ → Option Value
set_signed w (pos n) = if ltb n (2 ^ (bits w - 1)) then some (int_result w (pos n)) else none
set_signed w (negsuc n) = if ltb n (2 ^ (bits w - 1)) then some (int_result w (negsuc n)) else none

-- `setLLInt`: `none` where it returns false
pub set_int : ℤ → PropertyType → Outcome (Option Value)
unfolding set_unsigned set_signed
set_int z (uint w) = done (set_unsigned w z)
set_int z (int w) = done (set_signed w z)
set_int z _ = fault bad_pointer

-- a step of a transform, if the profile asks for it
abbrev pub step {ℓ} : {A : Type ℓ} → TransformArg → (A → Outcome A) → A → Outcome A
step arg f a = if arg.enabled then f a else done a

-- `-ival` and `ival` as a number of places
abbrev pub shift_out : ℤ → ℤ → Outcome ℤ
shift_out (negsuc k) z = shift_left z (suc k)
shift_out (pos k) z = shift_right z k

abbrev pub shift_in : ℤ → ℤ → Outcome ℤ
shift_in (negsuc k) z = shift_right z (suc k)
shift_in (pos k) z = shift_left z k

abbrev pub overflow : Value
overflow = string_result (codes "overflow")

-- what the string case of both functions does
pub remap : NvPairs → Value → Outcome Value
unfolding check_mapping
remap map (string_result s) = elim (check_mapping map s) [
  | none ↦ done (string_result s)
  | some t ↦ done (string_result t)
]
remap map v = fault bad_pointer

module _ (m : LongDouble) where
  -- `getLongDouble`
  pub get_real : Value → PropertyType → Outcome Bytes
  get_real (f64_result b) float64 = done (m.of_double b)
  get_real (f32_result b) float32 = done (m.of_float b)
  get_real _ _ = fault bad_pointer

  -- `setLongDouble`
  pub set_real : Bytes → PropertyType → Option Value
  set_real x float64 = Option.map f64_result (m.to_double x)
  set_real x _ = Option.map f32_result (m.to_float x)

  -- the integer steps of `edgex_transform_outgoing`
  pub int_out : PropertyValue → ℤ → Outcome ℤ
  int_out pv z = do
    z₁ ← step pv.mask (λ a. done (and a pv.mask.ival)) z
    z₂ ← step pv.shift (shift_out pv.shift.ival) z₁
    z₃ ← step pv.base (λ a. m.to_int (m.pow (m.of_int pv.base.ival) (m.of_int a))) z₂
    z₄ ← step pv.scale (λ a. mul64 a pv.scale.ival) z₃
    step pv.offset (λ a. add64 a pv.offset.ival) z₄

  -- the integer steps of `edgex_transform_incoming`, which has none for the mask
  pub int_in : PropertyValue → ℤ → Outcome ℤ
  int_in pv z = do
    z₁ ← step pv.offset (λ a. sub64 a pv.offset.ival) z
    z₂ ← step pv.scale (λ a. div64 a pv.scale.ival) z₁
    z₃ ← step pv.base (λ a. m.round (m.div (m.log (m.of_int a)) (m.log (m.of_int pv.base.ival)))) z₂
    step pv.shift (shift_in pv.shift.ival) z₃

  abbrev when : TransformArg → (Bytes → Bytes) → Bytes → Bytes
  when arg f x = if arg.enabled then f x else x

  pub real_out : PropertyValue → Bytes → Bytes
  real_out pv x =
      when pv.offset (λ a. m.add a (m.of_double pv.offset.dval))
        (when pv.scale (λ a. m.mul a (m.of_double pv.scale.dval))
          (when pv.base (m.pow (m.of_double pv.base.dval)) x))

  pub real_in : PropertyValue → Bytes → Bytes
  real_in pv x =
      when pv.base (λ a. m.div (m.log a) (m.log (m.of_double pv.base.dval)))
        (when pv.scale (λ a. m.div a (m.of_double pv.scale.dval))
          (when pv.offset (λ a. m.sub a (m.of_double pv.offset.dval)) x))

  -- the value that a transform leaves, and whether it fits the type
  out_value : Option Value → Value
  out_value none = overflow
  out_value (some v) = v

  pub transform_out_int : PropertyValue → Value → Outcome Value
  unfolding get_int set_int int_out out_value
  transform_out_int pv v =
      if transforms_on pv
      then (do z ← get_int v pv.type; y ← int_out pv z; o ← set_int y pv.type; done (out_value o))
      else done v

  pub transform_out_real : PropertyValue → Value → Outcome Value
  unfolding get_real set_real real_out out_value
  transform_out_real pv v =
      if transforms_on pv
      then (do x ← get_real v pv.type; done (out_value (set_real (real_out pv x) pv.type)))
      else done v

  pub out_of_type : PropertyType → PropertyValue → NvPairs → Value → Outcome Value
  unfolding transform_out_int transform_out_real remap
  out_of_type (uint w) pv maps v = transform_out_int pv v
  out_of_type (int w) pv maps v = transform_out_int pv v
  out_of_type float32 pv maps v = transform_out_real pv v
  out_of_type float64 pv maps v = transform_out_real pv v
  out_of_type string pv maps v = remap maps v
  out_of_type _ pv maps v = done v

  -- `edgex_transform_outgoing`
  pub outgoing : CommandResult → PropertyValue → NvPairs → Outcome CommandResult
  unfolding out_of_type
  outgoing r pv maps = do v ← out_of_type pv.type pv maps r.value; done (record r { value = v })

  -- where the value does not fit, the old one stays
  in_value : Value → Option Value → Bool × Value
  in_value v none = (false, v)
  in_value v (some v') = (true, v')

  pub transform_in_int : PropertyValue → Value → Outcome (Bool × Value)
  unfolding get_int set_int int_in in_value
  transform_in_int pv v =
      if transforms_on pv
      then (do z ← get_int v pv.type; y ← int_in pv z; o ← set_int y pv.type; done (in_value v o))
      else done (true, v)

  pub transform_in_real : PropertyValue → Value → Outcome (Bool × Value)
  unfolding get_real set_real real_in in_value
  transform_in_real pv v =
      if transforms_on pv
      then (do x ← get_real v pv.type; done (in_value v (set_real (real_in pv x) pv.type)))
      else done (true, v)

  pub in_of_type : PropertyType → PropertyValue → NvPairs → Value → Outcome (Bool × Value)
  unfolding transform_in_int transform_in_real remap
  in_of_type (uint w) pv maps v = transform_in_int pv v
  in_of_type (int w) pv maps v = transform_in_int pv v
  in_of_type float32 pv maps v = transform_in_real pv v
  in_of_type float64 pv maps v = transform_in_real pv v
  in_of_type string pv maps v = do v' ← remap maps v; done (true, v')
  in_of_type _ pv maps v = done (true, v)

  -- `edgex_transform_incoming`, with what it returns
  pub incoming : CommandResult → PropertyValue → NvPairs → Outcome (Bool × CommandResult)
  unfolding in_of_type
  incoming r pv maps = do
    (ok, v) ← in_of_type pv.type pv maps r.value
    done (ok, record r { value = v })
