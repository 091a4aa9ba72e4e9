-- ===== src/Metadata/Service.antt =====
-- device-sdk-c/src/c/edgex-rest.c: addresses and services.
pub mod RoundTrip
use device_service_zigbee.Prelude.{
  ℕ, Bool, true, false, Option, none, some, List, [], ◌∷◌, ◌++◌, Bytes, codes,
}
use device_service_zigbee.Prelude.Outcome.{Outcome, done, fault, bad_pointer, ◌>>=◌}
use device_service_zigbee.Command.Run.{AdminState, OperatingState}
use device_service_zigbee.DevUtil.{Protocol, AutoEvents}
use device_service_zigbee.Metadata.Types.{
  adminstate_tostring, adminstate_fromstring, operatingstate_tostring, operatingstate_fromstring,
}
use device_service_zigbee.Metadata.Json.{
  Json, text_value, number_value, make, string_at, get_string, get_number, get_boolean, get_object,
  get_array,
}
use device_service_zigbee.Metadata.Pairs.{
  array_to_strings, strings_to_array, protocols_read, protocols_write,
}
use device_service_zigbee.Metadata.Profile.{
  DeviceProfile, deviceprofile_read, deviceprofile_write, identity_fields,
}

-- `edgex_addressable`
pub record Addressable : Type 0 where
  pub address : Bytes
  pub created : ℕ
  pub id : Bytes
  pub method : Bytes
  pub modified : ℕ
  pub name : Bytes
  pub origin : ℕ
  pub password : Bytes
  pub path : Bytes
  pub port : ℕ
  pub protocol : Bytes
  pub publisher : Bytes
  pub topic : Bytes
  pub user : Bytes

-- `edgex_deviceservice`
pub record DeviceService : Type 0 where
  pub addressable : Addressable
  pub admin_state : AdminState
  pub created : ℕ
  pub description : Bytes
  pub id : Bytes
  pub labels : List Bytes
  pub last_connected : ℕ
  pub last_reported : ℕ
  pub modified : ℕ
  pub name : Bytes
  pub operating_state : OperatingState
  pub origin : ℕ

module _ (j : Json) where
  -- `addressable_read`
  abbrev pub addressable_read : Option j.Object → Addressable
  addressable_read obj = record {
    address = get_string j obj (codes "address");
    created = get_number j obj (codes "created");
    id = get_string j obj (codes "id");
    method = get_string j obj (codes "method");
    modified = get_number j obj (codes "modified");
    name = get_string j obj (codes "name");
    origin = get_number j obj (codes "origin");
    password = get_string j obj (codes "password");
    path = get_string j obj (codes "path");
    port = get_number j obj (codes "port");
    protocol = get_string j obj (codes "protocol");
    publisher = get_string j obj (codes "publisher");
    topic = get_string j obj (codes "topic");
    user = get_string j obj (codes "user");
  }

  abbrev pub addressable_fields : Addressable → Bool → List (Bytes × Option j.Value)
  addressable_fields e create =
      identity_fields j create e.id e.created e.modified
      ++ (codes "address", text_value j e.address)
        ∷ (codes "method", text_value j e.method)
        ∷ (codes "name", text_value j e.name)
        ∷ (codes "origin", number_value j e.origin)
        ∷ (codes "password", text_value j e.password)
        ∷ (codes "path", text_value j e.path)
        ∷ (codes "port", number_value j e.port)
        ∷ (codes "protocol", text_value j e.protocol)
        ∷ (codes "publisher", text_value j e.publisher)
        ∷ (codes "topic", text_value j e.topic)
        ∷ (codes "user", text_value j e.user)
        ∷ []

  -- `addressable_write`
  abbrev pub addressable_write : Addressable → Bool → j.Object
  addressable_write e create = make j (addressable_fields e create)

  -- `deviceservice_read`
  unfoldable pub deviceservice_read : Option j.Object → DeviceService
  deviceservice_read obj = record {
    addressable = addressable_read (get_object j obj (codes "addressable"));
    admin_state = adminstate_fromstring (string_at j obj (codes "adminState"));
    created = get_number j obj (codes "created");
    description = get_string j obj (codes "description");
    id = get_string j obj (codes "id");
    labels = array_to_strings j (get_array j obj (codes "labels"));
    last_connected = get_number j obj (codes "lastConnected");
    last_reported = get_number j obj (codes "lastReported");
    modified = get_number j obj (codes "modified");
    name = get_string j obj (codes "name");
    operating_state = operatingstate_fromstring (string_at j obj (codes "operatingState"));
    origin = get_number j obj (codes "origin");
  }

  abbrev pub service_fields : DeviceService → Bool → List (Bytes × Option j.Value)
  service_fields e create =
      identity_fields j create e.id e.created e.modified
      ++ (codes "addressable", some (j.object (addressable_write e.addressable false)))
        ∷ (codes "adminState", text_value j (adminstate_tostring e.admin_state))
        ∷ (codes "description", text_value j e.description)
        ∷ (codes "labels", some (j.array (strings_to_array j e.labels)))
        ∷ (codes "lastConnected", number_value j e.last_connected)
        ∷ (codes "lastReported", number_value j e.last_reported)
        ∷ (codes "name", text_value j e.name)
        ∷ (codes "operatingState", text_value j (operatingstate_tostring e.operating_state))
        ∷ (codes "origin", number_value j e.origin)
        ∷ []

  -- `deviceservice_write`
  abbrev pub deviceservice_write : DeviceService → Bool → j.Object
  deviceservice_write e create = make j (service_fields e create)
