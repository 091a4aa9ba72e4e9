-- ===== src/Metadata/Copies/Same.antt =====
-- A copy of a device is the device, but for the order of its protocols.
use device_service_zigbee.Prelude.{◌≡◌, refl, ap, some, List, [], ◌∷◌, Bytes, All}
use mathlib.Core.List.{reverse, reverse_aux}
use device_service_zigbee.Prelude.Outcome.{done}
use device_service_zigbee.Transform.{NvPairs}
use device_service_zigbee.DevUtil.{Protocol, AutoEvents}
use device_service_zigbee.Metadata.Property.{ProfileProperty}
use device_service_zigbee.Metadata.Commands.{ResourceOperation, DeviceCommand}
use device_service_zigbee.Metadata.Profile.{DeviceResource, DeviceProfile}
use device_service_zigbee.Metadata.Device.{Device}
use device_service_zigbee.Metadata.Copies.{
  strings_dup, nvpairs_dup, text_dup, profileproperty_dup, deviceresource_dup,
  resourceoperation_dup, devicecommand_dup, deviceprofile_dup, autoevents_dup, copy_protocols,
  device_dup,
}

strings_dup_same : (ss : List Bytes) → strings_dup ss ≡ ss
unfolding strings_dup
strings_dup_same [] = refl
strings_dup_same (s ∷ ss) = ap (◌∷◌ s) (strings_dup_same ss)

nvpairs_dup_same : (ps : NvPairs) → nvpairs_dup ps ≡ ps
unfolding nvpairs_dup
nvpairs_dup_same [] = refl
nvpairs_dup_same (p ∷ ps) = ap (◌∷◌ p) (nvpairs_dup_same ps)

resourceoperation_dup_same : (es : List ResourceOperation) → resourceoperation_dup es ≡ es
unfolding resourceoperation_dup
resourceoperation_dup_same [] = refl
resourceoperation_dup_same (e ∷ es) =
    rw (strings_dup_same e.secondary, nvpairs_dup_same e.mappings, resourceoperation_dup_same es)
      refl

devicecommand_dup_same : (es : List DeviceCommand) → devicecommand_dup es ≡ es
unfolding devicecommand_dup
devicecommand_dup_same [] = refl
devicecommand_dup_same (e ∷ es) =
    rw
      (
        resourceoperation_dup_same e.set,
        resourceoperation_dup_same e.get,
        devicecommand_dup_same es,
      )
      refl

autoevents_dup_same : (es : List AutoEvents) → autoevents_dup es ≡ es
unfolding autoevents_dup
autoevents_dup_same [] = refl
autoevents_dup_same (e ∷ es) = ap (◌∷◌ e) (autoevents_dup_same es)

copy_protocols_reversed :
    (ps result : List Protocol) → copy_protocols ps result ≡ reverse_aux ps result
unfolding copy_protocols
copy_protocols_reversed [] result = refl
copy_protocols_reversed (p ∷ ps) result =
    rw (nvpairs_dup_same p.properties) (copy_protocols_reversed ps (p ∷ result))

-- every property of the profile has an assertion, maybe an empty one
abbrev pub IsAsserted : DeviceResource → Type 0
IsAsserted e = (s : Bytes) × (e.properties.value.assertion ≡ some s)

profileproperty_dup_same :
    (p : ProfileProperty) (s : Bytes) → p.value.assertion ≡ some s → profileproperty_dup p ≡ done p
profileproperty_dup_same p s has =
    let kept : text_dup p.value.assertion ≡ done p.value.assertion = rw has refl in rw kept refl

deviceresource_dup_same :
    (es : List DeviceResource) → All IsAsserted es → deviceresource_dup es ≡ done es
unfolding deviceresource_dup
deviceresource_dup_same [] h = refl
deviceresource_dup_same (e ∷ es) h =
    let (s, has) = h.0 in
    rw
      (
        profileproperty_dup_same e.properties s has,
        deviceresource_dup_same es h.1,
        nvpairs_dup_same e.attributes,
      )
      refl

deviceprofile_dup_same :
    (p : DeviceProfile)
    → All IsAsserted p.device_resources
    → deviceprofile_dup (some p) ≡ done (some p)
unfolding deviceprofile_dup
deviceprofile_dup_same p h =
    rw
      (
        deviceresource_dup_same p.device_resources h,
        strings_dup_same p.labels,
        devicecommand_dup_same p.device_commands,
      )
      refl

-- A copy of a device whose profile has an assertion for each resource is the device itself, with its
-- protocols back to front.
pub device_dup_reversed :
    (e : Device) (p : DeviceProfile)
    → e.profile ≡ some p
    → All IsAsserted p.device_resources
    → device_dup e ≡ done (record e { protocols = reverse e.protocols })
unfolding device_dup
device_dup_reversed e p has h =
    let copied : deviceprofile_dup e.profile ≡ done e.profile =
      rw has (deviceprofile_dup_same p h) in
    rw
      (
        copied,
        copy_protocols_reversed e.protocols [],
        strings_dup_same e.labels,
        strings_dup_same e.service.labels,
        autoevents_dup_same e.autos,
      )
      refl
