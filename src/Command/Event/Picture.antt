-- ===== src/Command/Event/Picture.antt =====
-- An event with binary data, for the tests.
use device_service_zigbee.Prelude.{◌≡◌, refl, false, some, [], ◌∷◌, codes}
use device_service_zigbee.Prelude.Outcome.{done}
use device_service_zigbee.Value.{binary, binary_result}
use device_service_zigbee.Value.Equal.{CommandResult}
use device_service_zigbee.Command.{Row}
use device_service_zigbee.Command.Event.{
  cbor, bytes, Event, uses_cbor, encoding_of, transformed, meets, prepare, reading_value,
  readings_of, process_event,
}
use device_service_zigbee.Command.Lamp.{no_text, no_floats, level_row, sixteen_bits}

abbrev pub picture_row : Row
picture_row = record level_row { pval = record sixteen_bits { type = binary } }

abbrev pub picture : CommandResult
picture = record { origin = 0; value = binary_result (255 ∷ 0 ∷ []) }

abbrev pub sent : Event
sent = record {
  encoding = cbor;
  device = codes "desk";
  origin = 77;
  readings =
      record { name = codes "level"; value = bytes (255 ∷ 0 ∷ []); origin = 77; size = some 2 }
      ∷ [];
}

pub cbor_made :
    process_event no_text no_floats 77 (codes "desk") (picture_row ∷ []) (picture ∷ []) false
    ≡ done (some sent)
unfolding process_event prepare readings_of reading_value meets transformed encoding_of uses_cbor
cbor_made = refl
