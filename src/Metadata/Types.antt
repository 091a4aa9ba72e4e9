-- ===== src/Metadata/Types.antt =====
-- device-sdk-c/src/c/edgex-rest.c: the names of types and of states.
use device_service_zigbee.Prelude.{
  Option, none, some, List, [], ◌∷◌, Bytes, codes, if◌then◌else◌, str_eq, str_case_eq,
}
use device_service_zigbee.Prelude.Outcome.{Outcome, done, fault, bad_pointer}
use device_service_zigbee.Value.{
  PropertyType, bool, string, binary, uint, int, float32, float64, w8, w16, w32, w64,
}
use device_service_zigbee.Command.Run.{
  AdminState, locked, unlocked, OperatingState, enabled, disabled,
}

-- `proptypes`
abbrev pub propertytype_tostring : PropertyType → Bytes
propertytype_tostring bool = codes "bool"
propertytype_tostring string = codes "string"
propertytype_tostring binary = codes "binary"
propertytype_tostring (uint w8) = codes "uint8"
propertytype_tostring (uint w16) = codes "uint16"
propertytype_tostring (uint w32) = codes "uint32"
propertytype_tostring (uint w64) = codes "uint64"
propertytype_tostring (int w8) = codes "int8"
propertytype_tostring (int w16) = codes "int16"
propertytype_tostring (int w32) = codes "int32"
propertytype_tostring (int w64) = codes "int64"
propertytype_tostring float32 = codes "float32"
propertytype_tostring float64 = codes "float64"

-- from `Bool` to `Float64`
abbrev pub all_types : List PropertyType
all_types =
    bool
    ∷ string
    ∷ binary
    ∷ uint w8
    ∷ uint w16
    ∷ uint w32
    ∷ uint w64
    ∷ int w8
    ∷ int w16
    ∷ int w32
    ∷ int w64
    ∷ float32
    ∷ float64
    ∷ []

-- the loop of `edgex_propertytype_fromstring`
abbrev pub type_among : List PropertyType → Bytes → Option PropertyType
type_among [] s = none
type_among (t ∷ ts) s =
    let rest = type_among ts s in if str_case_eq s (propertytype_tostring t) then some t else rest

-- `edgex_propertytype_fromstring`, which does not test its text for NULL
unfoldable pub propertytype_fromstring : Option Bytes → Outcome (Option PropertyType)
propertytype_fromstring none = fault bad_pointer
propertytype_fromstring (some s) = done (type_among all_types s)

abbrev pub adminstate_tostring : AdminState → Bytes
adminstate_tostring locked = codes "LOCKED"
adminstate_tostring unlocked = codes "UNLOCKED"

-- `edgex_adminstate_fromstring`
abbrev pub adminstate_fromstring : Option Bytes → AdminState
adminstate_fromstring none = unlocked
adminstate_fromstring (some s) = if str_eq s (codes "LOCKED") then locked else unlocked

abbrev pub operatingstate_tostring : OperatingState → Bytes
operatingstate_tostring enabled = codes "ENABLED"
operatingstate_tostring disabled = codes "DISABLED"

-- `edgex_operatingstate_fromstring`
abbrev pub operatingstate_fromstring : Option Bytes → OperatingState
operatingstate_fromstring none = enabled
operatingstate_fromstring (some s) = if str_eq s (codes "DISABLED") then disabled else enabled
