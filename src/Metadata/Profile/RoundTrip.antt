-- ===== src/Metadata/Profile/RoundTrip.antt =====
-- What is read of a profile that was written.
use device_service_zigbee.Prelude.{
  ◌≡◌, refl, ◌≤◌, ◌^◌, false, some, List, [], ◌∷◌, ◌++◌, map, codes, All,
}
use mathlib.Core.List.{reverse}
use device_service_zigbee.Prelude.Outcome.{done}
use device_service_zigbee.Metadata.Json.{Json, IsText, make}
use device_service_zigbee.Metadata.Json.Fields.{
  get_string-make, get_number-make, get_object-make, get_array-make,
}
use device_service_zigbee.Metadata.Pairs.{strings_to_array, nvpairs_write}
use device_service_zigbee.Metadata.Pairs.Order.{
  IsPairs, array_to_strings-strings_to_array, nvpairs_read-nvpairs_write,
}
use device_service_zigbee.Metadata.Property.RoundTrip.{
  IsWritable, IsUnits, profileproperty_read-profileproperty_write,
}
use device_service_zigbee.Metadata.Profile.{
  DeviceResource, DeviceProfile, deviceresource_read, deviceresource_write, resources_read,
  resources_write, deviceprofile_read, deviceprofile_write, identity_fields, resource_fields,
  profile_fields,
}
use device_service_zigbee.Metadata.Commands.RoundTrip.{
  IsCommand, merged, commands_read-commands_write,
}
use device_service_zigbee.Metadata.Commands.{commands_write}
use device_service_zigbee.Metadata.Arguments.{NumberText}
use device_service_zigbee.Metadata.Arguments.RoundTrip.{ReadsLong}

-- with its attributes back to front
abbrev pub turned : DeviceResource → DeviceResource
turned e = record e { attributes = reverse e.attributes }

-- a profile as it is read: only names and values, and the commands, are not as they were
abbrev pub as_read : DeviceProfile → DeviceProfile
as_read e = record e {
  device_resources = map turned e.device_resources;
  device_commands = map merged e.device_commands;
}

module _ (n : NumberText) (j : Json) where
  -- texts, arguments and pairs that JSON can hold
  pub record IsResource (e : DeviceResource) : Type 0 where
    pub name : IsText j e.name
    pub description : IsText j e.description
    pub tag : IsText j e.tag
    pub value : IsWritable n j e.properties.value e.properties.texts
    pub units : IsUnits n j e.properties.units
    pub attributes : IsPairs j e.attributes

  pub record IsProfile (e : DeviceProfile) : Type 0 where
    pub id : IsText j e.id
    pub name : IsText j e.name
    pub description : IsText j e.description
    pub created : e.created ≤ 2 ^ 53
    pub modified : e.modified ≤ 2 ^ 53
    pub origin : e.origin ≤ 2 ^ 53
    pub manufacturer : IsText j e.manufacturer
    pub model : IsText j e.model
    pub labels : All (IsText j) e.labels
    pub device_resources : All IsResource e.device_resources
    pub device_commands : All (IsCommand j) e.device_commands

  deviceresource_read-deviceresource_write :
      (e : DeviceResource)
      → ReadsLong n
      → IsResource e
      → (o : j.Object) × (deviceresource_write j n e ≡ done o)
        × (deviceresource_read j n (some o) ≡ done (some (turned e)))
  unfolding deviceresource_write deviceresource_read
  deviceresource_read-deviceresource_write e reads h =
      let (p, written, read) =
        profileproperty_read-profileproperty_write n j e.properties reads h.value h.units in
      let fields = resource_fields j n e p in
      (
        make j fields,
        rw written refl,
        rw
            (
              get_object-make j fields (codes "properties") p refl,
              read,
              get_object-make j fields (codes "attributes") (nvpairs_write j e.attributes) refl,
              nvpairs_read-nvpairs_write j e.attributes h.attributes,
              get_string-make j fields (codes "name") e.name refl h.name,
              get_string-make j fields (codes "description") e.description refl h.description,
              get_string-make j fields (codes "tag") e.tag refl h.tag,
            )
            refl,
      )

  resources_read-resources_write :
      (es : List DeviceResource)
      → ReadsLong n
      → All IsResource es
      → (vs : List j.Value) × (resources_write j n es ≡ done vs)
        × (resources_read j n vs ≡ done (some (map turned es)))
  unfolding resources_write resources_read
  resources_read-resources_write [] reads h = ([], refl, refl)
  resources_read-resources_write (e ∷ es) reads h =
      let (o, written, read) = deviceresource_read-deviceresource_write e reads h.0 in
      let (vs, rest, rest_read) = resources_read-resources_write es reads h.1 in
      (j.object o ∷ vs, rw (written, rest) refl, rw (j.as_object-object o, read, rest_read) refl)

  -- Where `strtol` reads what "%ld" writes: a profile with texts and numbers that JSON can hold, no name
  -- twice in a list of attributes or mappings, and properties that are each readable or writable, have an
  -- assertion, and have as transforms 64-bit integers (for an integer type) or none, is written as a known
  -- one, and read from what is written of it with its attributes and mappings back to front, and with each
  -- command's operations to get behind those to set, where they are now.
  pub deviceprofile_read-deviceprofile_write :
      (e : DeviceProfile)
      → ReadsLong n
      → IsProfile e
      → (o : j.Object) × (deviceprofile_write j n e false ≡ done o)
        × (deviceprofile_read j n (some o) ≡ done (some (as_read e)))
  unfolding deviceprofile_write deviceprofile_read
  deviceprofile_read-deviceprofile_write e reads h =
      let (vs, written, read) =
        resources_read-resources_write e.device_resources reads h.device_resources in
      let fields = identity_fields j false e.id e.created e.modified ++ profile_fields j n e vs in
      (
        make j fields,
        rw written refl,
        rw
            (
              get_array-make j fields (codes "deviceResources") vs refl,
              read,
              get_array-make j fields (codes "deviceCommands") (commands_write j e.device_commands)
                  refl,
              commands_read-commands_write j e.device_commands h.device_commands,
              get_array-make j fields (codes "labels") (strings_to_array j e.labels) refl,
              array_to_strings-strings_to_array j e.labels h.labels,
              get_string-make j fields (codes "id") e.id refl h.id,
              get_string-make j fields (codes "name") e.name refl h.name,
              get_string-make j fields (codes "description") e.description refl h.description,
              get_number-make j fields (codes "created") e.created refl h.created,
              get_number-make j fields (codes "modified") e.modified refl h.modified,
              get_number-make j fields (codes "origin") e.origin refl h.origin,
              get_string-make j fields (codes "manufacturer") e.manufacturer refl h.manufacturer,
              get_string-make j fields (codes "model") e.model refl h.model,
            )
            refl,
      )
