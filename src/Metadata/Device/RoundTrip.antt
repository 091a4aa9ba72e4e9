-- ===== src/Metadata/Device/RoundTrip.antt =====
-- What is read of a device that was written.
use device_service_zigbee.Prelude.{
  ◌≡◌, refl, ◌≤◌, ◌^◌, false, none, some, [], ◌++◌, map, codes, All,
}
use mathlib.Core.List.{reverse}
use device_service_zigbee.Prelude.Outcome.{done}
use device_service_zigbee.DevUtil.{Protocol}
use device_service_zigbee.Metadata.Types.{adminstate_tostring, operatingstate_tostring}
use device_service_zigbee.Metadata.Json.{Json, IsText, make, text_value}
use device_service_zigbee.Metadata.Json.Fields.{
  or_else, get_string-make, get_number-make, get_object-make, get_array-make, get_array-make_absent,
}
use device_service_zigbee.Metadata.Pairs.{strings_to_array, protocols_write}
use device_service_zigbee.Metadata.Pairs.Order.{
  DistinctNames, IsPairs, array_to_strings-strings_to_array,
}
use device_service_zigbee.Metadata.Pairs.Protocols.{names, turned, protocols_read-protocols_write}
use device_service_zigbee.Metadata.Profile.{DeviceProfile}
use device_service_zigbee.Metadata.Profile.RoundTrip.{
  IsProfile, as_read, deviceprofile_read-deviceprofile_write,
}
use device_service_zigbee.Metadata.Device.{
  Device, read_autos, device_read, device_write, known_fields, device_fields,
}
use device_service_zigbee.Metadata.Arguments.{NumberText}
use device_service_zigbee.Metadata.Arguments.RoundTrip.{ReadsLong}
use device_service_zigbee.Metadata.Service.{deviceservice_write}
use device_service_zigbee.Metadata.Service.RoundTrip.{
  IsService, adminstate_kept, operatingstate_kept, deviceservice_read-deviceservice_write,
}

module _ (j : Json) (n : NumberText) where
  -- texts, numbers and lists that JSON can hold
  pub record IsDevice (e : Device) (p : DeviceProfile) : Type 0 where
    pub names_differ : DistinctNames (names e.protocols)
    pub protocols : All (λ (q : Protocol). IsPairs j q.properties) e.protocols
    pub created : e.created ≤ 2 ^ 53
    pub description : IsText j e.description
    pub id : IsText j e.id
    pub labels : All (IsText j) e.labels
    pub last_connected : e.last_connected ≤ 2 ^ 53
    pub last_reported : e.last_reported ≤ 2 ^ 53
    pub modified : e.modified ≤ 2 ^ 53
    pub name : IsText j e.name
    pub origin : e.origin ≤ 2 ^ 53
    pub service : IsService j e.service
    pub has_profile : e.profile ≡ some p
    pub profile : IsProfile n j p

  -- Where `strtol` reads what "%ld" writes: a device with a profile, with texts and numbers that JSON
  -- can hold, no name twice among its protocols or in their properties, is written as a known one, and
  -- read from what is written of it without its automatic events, with its protocols and their
  -- properties back to front, and with its profile as profiles are read. The profile is one whose texts
  -- and numbers JSON can hold, with no name twice in a list of attributes or mappings, and with
  -- properties that are each readable or writable, have an assertion, and have as transforms 64-bit
  -- integers (for an integer type) or none.
  pub device_read-device_write :
      (e : Device) (p : DeviceProfile)
      → ReadsLong n
      → IsDevice e p
      → (o : j.Object) × (device_write j n e false ≡ done o)
        × (device_read j n (some o)
            ≡ done (record e {
              protocols = reverse (map turned e.protocols);
              autos = [];
              profile = some (as_read p);
            }))
  unfolding device_write device_read read_autos
  device_read-device_write e p reads h =
      let (po, written, read) = deviceprofile_read-deviceprofile_write n j p reads h.profile in
      let fields = known_fields j n e po ++ device_fields j n e in
      (
        make j fields,
        rw (h.has_profile, written) refl,
        rw
            (
              get_object-make j fields (codes "protocols") (protocols_write j e.protocols) refl,
              protocols_read-protocols_write j e.protocols h.names_differ h.protocols,
              get_object-make j fields (codes "profile") po refl,
              read,
              adminstate_kept j fields e.admin_state
                  (or_else j (text_value j (adminstate_tostring e.admin_state)) none) refl,
              operatingstate_kept j fields e.operating_state
                  (or_else j (text_value j (operatingstate_tostring e.operating_state)) none) refl,
              get_array-make j fields (codes "labels") (strings_to_array j e.labels) refl,
              array_to_strings-strings_to_array j e.labels h.labels,
              get_number-make j fields (codes "created") e.created refl h.created,
              get_string-make j fields (codes "description") e.description refl h.description,
              get_string-make j fields (codes "id") e.id refl h.id,
              get_number-make j fields (codes "lastConnected") e.last_connected refl
                  h.last_connected,
              get_number-make j fields (codes "lastReported") e.last_reported refl h.last_reported,
              get_number-make j fields (codes "modified") e.modified refl h.modified,
              get_string-make j fields (codes "name") e.name refl h.name,
              get_number-make j fields (codes "origin") e.origin refl h.origin,
              get_array-make_absent j fields (codes "autoEvents") refl,
              get_object-make j fields (codes "service") (deviceservice_write j e.service false)
                  refl,
              deviceservice_read-deviceservice_write j e.service h.service,
            )
            refl,
      )
