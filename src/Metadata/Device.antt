-- ===== src/Metadata/Device.antt =====
-- device-sdk-c/src/c/edgex-rest.c: devices.
pub mod RoundTrip
use device_service_zigbee.Prelude.{
  ℕ, Bool, true, false, Option, none, some, List, [], ◌∷◌, ◌++◌, Bytes, codes,
}
use device_service_zigbee.Prelude.Outcome.{Outcome, done, fault, bad_pointer, ◌>>=◌}
use device_service_zigbee.Command.Run.{AdminState, OperatingState}
use device_service_zigbee.DevUtil.{Protocol, AutoEvents}
use device_service_zigbee.Metadata.Types.{
  adminstate_tostring, adminstate_fromstring, operatingstate_tostring, operatingstate_fromstring,
}
use device_service_zigbee.Metadata.Json.{
  Json, text_value, number_value, make, string_at, get_string, get_number, get_boolean, get_object,
  get_array,
}
use device_service_zigbee.Metadata.Pairs.{
  array_to_strings, strings_to_array, protocols_read, protocols_write,
}
use device_service_zigbee.Metadata.Profile.{
  DeviceProfile, deviceprofile_read, deviceprofile_write, identity_fields,
}
use device_service_zigbee.Metadata.Service.{
  Addressable, DeviceService, addressable_read, addressable_fields, addressable_write,
  deviceservice_read, service_fields, deviceservice_write,
}
use device_service_zigbee.Metadata.Arguments.{NumberText}

-- `edgex_device`, without its count; its profile is NULL where it could not be read
pub record Device : Type 0 where
  pub protocols : List Protocol
  pub admin_state : AdminState
  pub created : ℕ
  pub description : Bytes
  pub id : Bytes
  pub labels : List Bytes
  pub last_connected : ℕ
  pub last_reported : ℕ
  pub modified : ℕ
  pub name : Bytes
  pub operating_state : OperatingState
  pub origin : ℕ
  pub autos : List AutoEvents
  pub service : DeviceService
  pub profile : Option DeviceProfile

module _ (j : Json) where
  -- `autoevent_read`
  abbrev pub autoevent_read : Option j.Object → AutoEvents
  autoevent_read obj = record {
    resource = get_string j obj (codes "resource");
    frequency = get_string j obj (codes "frequency");
    on_change = get_boolean j obj (codes "onChange") false;
  }

  -- the loop of `device_read`, with the list so far
  unfoldable pub read_autos : List j.Value → List AutoEvents → List AutoEvents
  read_autos [] autos = autos
  read_autos (v ∷ vs) autos = read_autos vs (autoevent_read (j.as_object v) ∷ autos)

  -- `autoevents_write`
  unfoldable pub autoevents_write : List AutoEvents → List j.Value
  autoevents_write [] = []
  autoevents_write (e ∷ es) =
      j.object (
        make j (
          (codes "resource", text_value j e.resource)
          ∷ (codes "frequency", text_value j e.frequency)
          ∷ (codes "onChange", some (j.boolean e.on_change))
          ∷ []))
      ∷ autoevents_write es

  module _ (n : NumberText) where
    -- `device_read`
    unfoldable pub device_read : Option j.Object → Outcome Device
    device_read obj = do
      protocols ← protocols_read j (get_object j obj (codes "protocols"))
      profile ← deviceprofile_read j n (get_object j obj (codes "profile"))
      done (record {
        protocols = protocols;
        admin_state = adminstate_fromstring (string_at j obj (codes "adminState"));
        created = get_number j obj (codes "created");
        description = get_string j obj (codes "description");
        id = get_string j obj (codes "id");
        labels = array_to_strings j (get_array j obj (codes "labels"));
        last_connected = get_number j obj (codes "lastConnected");
        last_reported = get_number j obj (codes "lastReported");
        modified = get_number j obj (codes "modified");
        name = get_string j obj (codes "name");
        operating_state = operatingstate_fromstring (string_at j obj (codes "operatingState"));
        origin = get_number j obj (codes "origin");
        autos = read_autos (get_array j obj (codes "autoEvents")) [];
        service = deviceservice_read j (get_object j obj (codes "service"));
        profile = profile;
      })

    -- the profile, which the code does not test for NULL
    abbrev pub profile_of : Option DeviceProfile → Outcome DeviceProfile
    profile_of none = fault bad_pointer
    profile_of (some p) = done p

    abbrev pub name_only : Bytes → Option j.Value
    name_only name = some (j.object (make j ((codes "name", text_value j name) ∷ [])))

    -- `device_write` up to `protocols`, for a device that is new
    abbrev pub new_fields : Device → DeviceProfile → List (Bytes × Option j.Value)
    new_fields e p =
        (codes "profile", name_only p.name)
        ∷ (codes "service", name_only e.service.name)
        ∷ (codes "lastConnected", number_value j 0)
        ∷ (codes "lastReported", number_value j 0)
        ∷ []

    -- and for one that is known, with its profile written
    abbrev pub known_fields : Device → j.Object → List (Bytes × Option j.Value)
    known_fields e p =
        (codes "adminState", text_value j (adminstate_tostring e.admin_state))
        ∷ (codes "operatingState", text_value j (operatingstate_tostring e.operating_state))
        ∷ (codes "id", text_value j e.id)
        ∷ (codes "created", number_value j e.created)
        ∷ (codes "modified", number_value j e.modified)
        ∷ (codes "profile", some (j.object p))
        ∷ (codes "service", some (j.object (deviceservice_write j e.service false)))
        ∷ (codes "lastConnected", number_value j e.last_connected)
        ∷ (codes "lastReported", number_value j e.last_reported)
        ∷ []

    abbrev pub device_fields : Device → List (Bytes × Option j.Value)
    device_fields e =
        (codes "protocols", some (j.object (protocols_write j e.protocols)))
        ∷ (codes "autoevents", some (j.array (autoevents_write e.autos)))
        ∷ (codes "adminState", text_value j (adminstate_tostring e.admin_state))
        ∷ (codes "name", text_value j e.name)
        ∷ (codes "description", text_value j e.description)
        ∷ (codes "labels", some (j.array (strings_to_array j e.labels)))
        ∷ (codes "operatingState", text_value j (operatingstate_tostring e.operating_state))
        ∷ (codes "origin", number_value j e.origin)
        ∷ []

    -- `device_write`
    unfoldable pub device_write : Device → Bool → Outcome j.Object
    device_write e true = do
      p ← profile_of e.profile
      done (make j (new_fields e p ++ device_fields e))
    device_write e false = do
      p ← profile_of e.profile
      profile ← deviceprofile_write j n p false
      done (make j (known_fields e profile ++ device_fields e))
