-- ===== src/Driver/Tests.antt =====
-- The driver on concrete frames: a lamp called desk.
use device_service_zigbee.Prelude.{
  differ, ◌≡◌, ◌+◌, refl, true, false, none, some, [], ◌∷◌, ◌++◌, Bytes, codes, arith,
  if◌then◌else◌, differ, ltb, ◌&&◌, ◌*◌, length,
}
use device_service_zigbee.Prelude.Decimal.{decimal}
use device_service_zigbee.Prelude.Outcome.{done, fault, out_of_bounds, ◌>>=◌}
use device_service_zigbee.Value.{
  w16, uint, uint_result, string_result, value_to_string, populate_value,
}
use device_service_zigbee.Value.Scan.{scan_unsigned}
use device_service_zigbee.Value.Equal.{CommandResult}
use device_service_zigbee.Frame.{SensorEvent, take_discovery}
use device_service_zigbee.Frame.RoundTrip.{event_frame, take_discovery_frame}
use device_service_zigbee.Command.{CommandRequest}
use device_service_zigbee.Command.Event.{process_event}
use device_service_zigbee.Command.Lamp.{
  no_text, no_floats, level_row, level_info, full_profile, service, desk, devices, level_found,
}
use device_service_zigbee.Driver.{Queues, no_entries}
use device_service_zigbee.Driver.Frames.{get_frame, put_frame}
use device_service_zigbee.Driver.Frames.Bounds.{get_frame_lem, put_frame_lem}
use device_service_zigbee.Driver.Values.RoundTrip.{IsFrame, ReadAs}
use device_service_zigbee.Driver.Serial.Dispatch.{Receives, rx-dispatch}
use device_service_zigbee.Driver.Polling.{random_get_handler}
use device_service_zigbee.Driver.Polling.Waiting.{
  random_get_handler_answered, random_get_handler_blocked,
}
use device_service_zigbee.Driver.Discovery.{add_new_device}
use device_service_zigbee.Driver.Discovery.Addresses.{add_new_device_cases}
use device_service_zigbee.Driver.Push.{push_event}
use device_service_zigbee.Driver.Push.Composition.{push_event-event_frame}

abbrev level_request : CommandRequest
level_request = level_row.req

abbrev ask : Bytes
ask = codes "b#desk#100#1#level#"

asked : get_frame (codes "desk") (level_request ∷ []) ≡ done ask
unfolding decimal
asked = get_frame_lem (codes "desk") (level_request ∷ [])

abbrev answer : SensorEvent
answer = record {
  name = codes "desk";
  origin = 1200;
  command_device = codes "level";
  size = 1;
  value = some (codes "300" ∷ []);
}

answer-IsFrame : IsFrame answer (codes "300" ∷ [])
answer-IsFrame =
    ((omega arith, refl), (omega arith, refl), omega arith, omega arith, omega arith, refl, refl)

answer-ReadAs : ReadAs no_text (uint w16 ∷ []) (codes "300" ∷ []) (uint_result w16 300 ∷ [])
unfolding populate_value scan_unsigned
answer-ReadAs = (refl, tt)

random_get_handler_answered_example :
    random_get_handler no_text
      (codes "desk")
      (level_request ∷ [])
      ([] ∷ [] ∷ (event_frame answer (codes "300" ∷ []) ∷ []) ∷ [] ∷ [])
      no_entries
    ≡ done (
      some (record { origin = 1200; value = uint_result w16 300 } ∷ []),
      record no_entries { tx = ask ∷ [] },
    )
random_get_handler_answered_example =
    random_get_handler_answered no_text no_entries (level_request ∷ []) ask answer
      (codes "300" ∷ []) (uint_result w16 300 ∷ []) ([] ∷ [] ∷ []) ([] ∷ []) [] asked refl
      (refl, (refl, tt)) (omega arith) answer-IsFrame answer-ReadAs (omega arith)

abbrev stale : Queues
stale = record no_entries {
  get_handler = event_frame (record answer { name = codes "hall" }) (codes "300" ∷ []) ∷ [];
}

stale-IsFrame : IsFrame (record answer { name = codes "hall" }) (codes "300" ∷ [])
stale-IsFrame =
    ((omega arith, refl), (omega arith, refl), omega arith, omega arith, omega arith, refl, refl)

random_get_handler_blocked_example :
    random_get_handler no_text
      (codes "desk")
      (level_request ∷ [])
      ([] ∷ (event_frame answer (codes "300" ∷ []) ∷ []) ∷ [])
      stale
    ≡ done (
      none,
      record stale {
        tx = ask ∷ [];
        get_handler =
            event_frame (record answer { name = codes "hall" }) (codes "300" ∷ [])
            ∷ event_frame answer (codes "300" ∷ [])
            ∷ [];
      },
    )
random_get_handler_blocked_example =
    random_get_handler_blocked no_text stale (codes "desk") (level_request ∷ []) ask
      (record answer { name = codes "hall" }) (codes "300" ∷ []) []
      ([] ∷ (event_frame answer (codes "300" ∷ []) ∷ []) ∷ []) asked refl stale-IsFrame
      (differ _ _ refl) (omega arith)

abbrev dimmed : CommandResult
dimmed = record { origin = 0; value = string_result (codes "low") }

put_frame_lem_example : put_frame no_text (codes "desk") (level_request ∷ []) (dimmed ∷ []) ≡ (
    if ltb 10 100
    then done (codes "c#desk#0#" ++ (decimal 1 ++ codes "#level:low#"))
    else fault out_of_bounds)
put_frame_lem_example =
    put_frame_lem no_text (codes "desk") (level_request ∷ []) (dimmed ∷ []) (codes "low" ∷ [])
      (unfold value_to_string in refl, tt)

abbrev line : Bytes
line = codes "xxxxxxxx"

rx-dispatch_example : Receives no_entries line b'b' b'#' (codes "hall")
rx-dispatch_example = rx-dispatch no_entries line b'b' b'#' (codes "hall") (omega arith)

found :
    take_discovery (codes "m1#00:11#lamp#x#")
    ≡ done (record {
      devname = codes "m1";
      mac = codes "00:11";
      profile = codes "lamp";
      model = codes "x";
    })
found =
    take_discovery_frame
      (record {
        devname = codes "m1";
        mac = codes "00:11";
        profile = codes "lamp";
        model = codes "x";
      })
      [] (omega arith)

add_new_device_cases_example :
    add_new_device 468 (λ name profile. none) (codes "m1#00:11#lamp#x#") no_entries ≡ (
      if ltb 468 1000 && ltb (2 + 2 * length (decimal 468)) 9
      then done (false, no_entries)
      else fault out_of_bounds)
add_new_device_cases_example =
    add_new_device_cases 468 (λ name profile. none) (codes "m1#00:11#lamp#x#") no_entries
      (record {
        devname = codes "m1";
        mac = codes "00:11";
        profile = codes "lamp";
        model = codes "x";
      })
      found

push_event-event_frame_example :
    push_event service devices
      (record no_entries { events = event_frame answer (codes "300" ∷ []) ∷ [] })
    ≡ (process_event no_text no_floats 77
          (codes "desk")
          (level_row ∷ [])
          (record { origin = 1200; value = uint_result w16 300 } ∷ [])
          false
        >>= λ posted. done (posted, no_entries))
push_event-event_frame_example =
    push_event-event_frame service devices
      (record no_entries { events = event_frame answer (codes "300" ∷ []) ∷ [] }) answer
      (codes "300" ∷ []) [] desk (level_info true) full_profile (uint_result w16 300 ∷ []) refl
      answer-IsFrame refl level_found answer-ReadAs
