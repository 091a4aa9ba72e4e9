-- ===== src/Frame/Tests.antt =====
-- The frames of structString.h on concrete inputs.
use device_service_zigbee.Prelude.{
  ◌≡◌, refl, ◌<◌, ◌↔◌, ◌⊎◌, ◌≢◌, ◌^◌, some, none, [], ◌∷◌, take, arith, codes,
}
use device_service_zigbee.Prelude.Decimal.{decimal, atoi}
use device_service_zigbee.Prelude.Outcome.{done}
use device_service_zigbee.Frame.{
  SensorEvent, take_event, free_event, RepDiscovery, take_string, strstr, take_value,
}
use device_service_zigbee.Frame.Search.{value_word}
use device_service_zigbee.Frame.RoundTrip.{event_frame, take_event-event_frame, take_event_misread}
use device_service_zigbee.Frame.Faults.{Faults, take_event_short, free_event-take_event}

abbrev reading : SensorEvent
reading = record {
  name = codes "lamp";
  origin = 1200;
  command_device = codes "light";
  size = 2;
  value = some (codes "17" ∷ codes "on" ∷ []);
}

abbrev unlucky : SensorEvent
unlucky = record reading { name = codes "dimvalue" }

reading_frame :
    event_frame reading (codes "17" ∷ codes "on" ∷ []) ≡ codes "lamp#1200#light#2#value#17#on#"
unfolding decimal
reading_frame = refl

take_event-event_frame_example :
    take_event (event_frame reading (codes "17" ∷ codes "on" ∷ [])) ≡ done reading
take_event-event_frame_example =
    take_event-event_frame reading (codes "17" ∷ codes "on" ∷ []) (omega arith, refl)
      (omega arith, refl) (omega arith) (omega arith) (omega arith) refl refl

take_event_misread_example :
    take_event (event_frame unlucky (codes "17" ∷ codes "on" ∷ []))
    ≡ done (record unlucky {
      value = some (
          take 2
            (decimal 1200 ∷ codes "light" ∷ decimal 2 ∷ value_word ∷ codes "17" ∷ codes "on" ∷ []));
    })
take_event_misread_example =
    take_event_misread unlucky (codes "17" ∷ codes "on" ∷ []) (omega arith) refl (omega arith)
      (omega arith) (omega arith) (omega arith) refl

take_event_short_example : Faults (take_event (codes "lamp#1200#"))
take_event_short_example = take_event_short (codes "lamp#1200#") (omega arith)

abbrev no_values : SensorEvent
no_values = record {
  name = codes "a";
  origin = 0;
  command_device = codes "b";
  size = 3;
  value = none;
}

take_event-no_values : take_event (codes "a#0#b#3#") ≡ done no_values
unfolding take_event take_string strstr atoi take_value
take_event-no_values = refl

free_event-take_event_example :
    (free_event no_values ≡ done tt)
    ↔ ((no_values.size ≡ 0) ⊎ ((no_values.value ≢ none) × (no_values.size < 2 ^ 31)))
free_event-take_event_example =
    free_event-take_event (codes "a#0#b#3#") no_values take_event-no_values

abbrev lamp : RepDiscovery
lamp = record {
  devname = codes "lamp";
  mac = codes "a0";
  profile = codes "Lamp";
  model = codes "l1";
}
