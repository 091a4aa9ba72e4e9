-- ===== src/Metadata/Service/RoundTrip.antt =====
-- What is read of addresses and services that were written.
use device_service_zigbee.Prelude.{
  ◌≡◌, refl, ap, ◌∙◌, ◌≤◌, ◌^◌, false, none, some, Option, List, Bytes, codes, All,
}
use device_service_zigbee.Command.Run.{
  AdminState, OperatingState, locked, unlocked, enabled, disabled,
}
use device_service_zigbee.Metadata.Types.{
  adminstate_tostring, adminstate_fromstring, operatingstate_tostring, operatingstate_fromstring,
}
use device_service_zigbee.Metadata.Json.{Json, IsText, make, string_at, text_value}
use device_service_zigbee.Metadata.Json.Fields.{
  last_of, or_else, or_else-text_value, string_at-make, get_string-make, get_number-make,
  get_object-make, get_array-make,
}
use device_service_zigbee.Metadata.Pairs.{strings_to_array}
use device_service_zigbee.Metadata.Pairs.Order.{array_to_strings-strings_to_array}
use device_service_zigbee.Metadata.Service.{
  Addressable, DeviceService, addressable_read, addressable_fields, addressable_write,
  deviceservice_read, service_fields, deviceservice_write,
}

module _ (j : Json) where
  -- texts and numbers that JSON can hold
  pub record IsAddressable (e : Addressable) : Type 0 where
    pub address : IsText j e.address
    pub created : e.created ≤ 2 ^ 53
    pub id : IsText j e.id
    pub method : IsText j e.method
    pub modified : e.modified ≤ 2 ^ 53
    pub name : IsText j e.name
    pub origin : e.origin ≤ 2 ^ 53
    pub password : IsText j e.password
    pub path : IsText j e.path
    pub port : e.port ≤ 2 ^ 53
    pub protocol : IsText j e.protocol
    pub publisher : IsText j e.publisher
    pub topic : IsText j e.topic
    pub user : IsText j e.user

  pub record IsService (e : DeviceService) : Type 0 where
    pub addressable : IsAddressable e.addressable
    pub created : e.created ≤ 2 ^ 53
    pub description : IsText j e.description
    pub id : IsText j e.id
    pub labels : All (IsText j) e.labels
    pub last_connected : e.last_connected ≤ 2 ^ 53
    pub last_reported : e.last_reported ≤ 2 ^ 53
    pub modified : e.modified ≤ 2 ^ 53
    pub name : IsText j e.name
    pub origin : e.origin ≤ 2 ^ 53

  addressable_read-addressable_write :
      (e : Addressable)
      → IsAddressable e
      → addressable_read j (some (addressable_write j e false)) ≡ e
  addressable_read-addressable_write e h =
      let fields = addressable_fields j e false in
      rw
        (
          get_string-make j fields (codes "address") e.address refl h.address,
          get_number-make j fields (codes "created") e.created refl h.created,
          get_string-make j fields (codes "id") e.id refl h.id,
          get_string-make j fields (codes "method") e.method refl h.method,
          get_number-make j fields (codes "modified") e.modified refl h.modified,
          get_string-make j fields (codes "name") e.name refl h.name,
          get_number-make j fields (codes "origin") e.origin refl h.origin,
          get_string-make j fields (codes "password") e.password refl h.password,
          get_string-make j fields (codes "path") e.path refl h.path,
          get_number-make j fields (codes "port") e.port refl h.port,
          get_string-make j fields (codes "protocol") e.protocol refl h.protocol,
          get_string-make j fields (codes "publisher") e.publisher refl h.publisher,
          get_string-make j fields (codes "topic") e.topic refl h.topic,
          get_string-make j fields (codes "user") e.user refl h.user,
        )
        refl

  module _ (fields : List (Bytes × Option j.Value)) where
    pub adminstate_kept :
        (a : AdminState) (d : Option j.Value)
        → last_of j fields (codes "adminState") none
          ≡ or_else j (text_value j (adminstate_tostring a)) d
        → adminstate_fromstring (string_at j (some (make j fields)) (codes "adminState")) ≡ a
    adminstate_kept locked d h = ap adminstate_fromstring (
        string_at-make j fields (codes "adminState") (codes "LOCKED")
          (h ∙ or_else-text_value j (codes "LOCKED") d (j.is_text-is_ascii (codes "LOCKED") refl))
          (j.is_text-is_ascii (codes "LOCKED") refl))
    adminstate_kept unlocked d h = ap adminstate_fromstring (
        string_at-make j fields (codes "adminState") (codes "UNLOCKED")
          (h
            ∙ or_else-text_value j (codes "UNLOCKED") d
                (j.is_text-is_ascii (codes "UNLOCKED") refl))
          (j.is_text-is_ascii (codes "UNLOCKED") refl))

    pub operatingstate_kept :
        (o : OperatingState) (d : Option j.Value)
        → last_of j fields (codes "operatingState") none
          ≡ or_else j (text_value j (operatingstate_tostring o)) d
        → operatingstate_fromstring (string_at j (some (make j fields)) (codes "operatingState"))
          ≡ o
    operatingstate_kept enabled d h = ap operatingstate_fromstring (
        string_at-make j fields (codes "operatingState") (codes "ENABLED")
          (h ∙ or_else-text_value j (codes "ENABLED") d (j.is_text-is_ascii (codes "ENABLED") refl))
          (j.is_text-is_ascii (codes "ENABLED") refl))
    operatingstate_kept disabled d h = ap operatingstate_fromstring (
        string_at-make j fields (codes "operatingState") (codes "DISABLED")
          (h
            ∙ or_else-text_value j (codes "DISABLED") d
                (j.is_text-is_ascii (codes "DISABLED") refl))
          (j.is_text-is_ascii (codes "DISABLED") refl))

  pub deviceservice_read-deviceservice_write :
      (e : DeviceService)
      → IsService e
      → deviceservice_read j (some (deviceservice_write j e false)) ≡ e
  unfolding deviceservice_read
  deviceservice_read-deviceservice_write e h =
      let fields = service_fields j e false in
      rw
        (
          get_object-make j fields (codes "addressable") (addressable_write j e.addressable false)
              refl,
          addressable_read-addressable_write e.addressable h.addressable,
          adminstate_kept fields e.admin_state none refl,
          operatingstate_kept fields e.operating_state none refl,
          get_array-make j fields (codes "labels") (strings_to_array j e.labels) refl,
          array_to_strings-strings_to_array j e.labels h.labels,
          get_number-make j fields (codes "created") e.created refl h.created,
          get_string-make j fields (codes "description") e.description refl h.description,
          get_string-make j fields (codes "id") e.id refl h.id,
          get_number-make j fields (codes "lastConnected") e.last_connected refl h.last_connected,
          get_number-make j fields (codes "lastReported") e.last_reported refl h.last_reported,
          get_number-make j fields (codes "modified") e.modified refl h.modified,
          get_string-make j fields (codes "name") e.name refl h.name,
          get_number-make j fields (codes "origin") e.origin refl h.origin,
        )
        refl
