-- ===== src/Metadata/Tests.antt =====
-- The lamp, written and read.
use device_service_zigbee.Prelude.{◌≡◌, refl, false, some, [], ◌∷◌, map, codes}
use mathlib.Core.List.{reverse}
use device_service_zigbee.Prelude.Outcome.{done, fault, bad_pointer}
use device_service_zigbee.Metadata.Types.{propertytype_fromstring}
use device_service_zigbee.Metadata.Property.{propertyvalue_read, propertyvalue_write}
use device_service_zigbee.Metadata.Property.RoundTrip.{propertyvalue_read-propertyvalue_write}
use device_service_zigbee.Metadata.Profile.{deviceprofile_read, deviceprofile_write}
use device_service_zigbee.Metadata.Commands.RoundTrip.{devicecommand_read-devicecommand_write}
use device_service_zigbee.Metadata.Profile.RoundTrip.{
  as_read, deviceprofile_read-deviceprofile_write,
}
use device_service_zigbee.Metadata.Pairs.Protocols.{turned}
use device_service_zigbee.Metadata.Device.{device_read, device_write}
use device_service_zigbee.Metadata.Device.RoundTrip.{device_read-device_write}
use device_service_zigbee.Metadata.Copies.{device_dup}
use device_service_zigbee.Metadata.Copies.Same.{device_dup_reversed}
use device_service_zigbee.Metadata.Trees.{Members, trees, number_text, number_text-ReadsLong}
use device_service_zigbee.Metadata.Commands.{devicecommand_read, devicecommand_write}
use device_service_zigbee.Metadata.Samples.{
  level, level_texts, level-IsWritable, operation, operation-IsOperation, read_light, lamp,
  lamp-IsProfile, hall, hall-IsDevice,
}

-- The operation to get is read as one to set.
devicecommand_read-devicecommand_write_example :
    devicecommand_read trees (some (devicecommand_write trees read_light))
    ≡ done (record { name = codes "ReadLight"; set = operation ∷ []; get = [] })
devicecommand_read-devicecommand_write_example =
    devicecommand_read-devicecommand_write trees read_light (refl, tt, (operation-IsOperation, tt))

deviceprofile_read-deviceprofile_write_example :
    (o : Members) × (deviceprofile_write trees number_text lamp false ≡ done o)
    × (deviceprofile_read trees number_text (some o) ≡ done (some (as_read lamp)))
deviceprofile_read-deviceprofile_write_example =
    deviceprofile_read-deviceprofile_write number_text trees lamp number_text-ReadsLong
      lamp-IsProfile

propertyvalue_read-propertyvalue_write_example :
    (o : Members) × (propertyvalue_write number_text trees level level_texts ≡ done o)
    × (propertyvalue_read number_text trees (some o) ≡ done (some (level, level_texts)))
propertyvalue_read-propertyvalue_write_example =
    propertyvalue_read-propertyvalue_write number_text trees level level_texts number_text-ReadsLong
      level-IsWritable

device_read-device_write_example :
    (o : Members) × (device_write trees number_text hall false ≡ done o)
    × (device_read trees number_text (some o)
        ≡ done (record hall {
          protocols = reverse (map turned hall.protocols);
          autos = [];
          profile = some (as_read lamp);
        }))
device_read-device_write_example =
    device_read-device_write trees number_text hall lamp number_text-ReadsLong hall-IsDevice

device_dup_reversed_example :
    device_dup hall ≡ done (record hall { protocols = reverse hall.protocols })
device_dup_reversed_example = device_dup_reversed hall lamp refl (([], refl), tt)

-- A property without a type is read through a NULL pointer.
no_type : propertyvalue_read number_text trees (some []) ≡ fault bad_pointer
unfolding propertyvalue_read propertytype_fromstring
no_type = refl
