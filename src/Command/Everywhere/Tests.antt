-- ===== src/Command/Everywhere/Tests.antt =====
-- Two lamps that a command reads at once.
use device_service_zigbee.Prelude.{◌≡◌, refl, true, some, List, [], ◌∷◌, ◌++◌, codes}
use device_service_zigbee.Prelude.Outcome.{done}
use device_service_zigbee.Prelude.Decimal.{decimal}
use device_service_zigbee.Value.{value_to_string}
use device_service_zigbee.Command.{CmdInfo}
use device_service_zigbee.Command.Event.{
  json, process_event, prepare, meets, encoding_of, readings_of, reading_value, transformed,
}
use device_service_zigbee.Command.Run.{
  ok, Device, get_called, event_added, run_one, run_allowed, in_service, run_get, all_readable,
  finish_get,
}
use device_service_zigbee.Command.Lamp.{desk, level_info, event, service}
use device_service_zigbee.Command.Everywhere.{opened, append_cbor, closed, all_command}
use device_service_zigbee.Command.Everywhere.Replies.{Run, all_command-array_of}

level_read :
    run_one service desk (level_info true) []
    ≡ done ((ok, get_called (codes "desk") ∷ event_added event ∷ []), some event)
unfolding run_one run_allowed in_service run_get all_readable finish_get process_event prepare meets
    encoding_of readings_of reading_value value_to_string transformed decimal
level_read = refl

abbrev desk_run : Run
desk_run = record {
  code = ok;
  effects = get_called (codes "desk") ∷ event_added event ∷ [];
  event = some event;
}

abbrev desks : List (Device × CmdInfo)
desks = (desk, level_info true) ∷ (desk, level_info true) ∷ []

all_command-array_of_example :
    all_command service (λ e. codes "{}") [] desks
    ≡ done (record {
      status = ok;
      effects = desk_run.effects ++ desk_run.effects;
      reply = some (8, json, codes "[{},{}]");
    })
all_command-array_of_example =
    all_command-array_of service (λ e. codes "{}") [] desks (desk_run ∷ desk_run ∷ [])
      (level_read, (level_read, tt)) (refl, (refl, tt))

-- An array of CBOR starts with the byte 252, which starts no array in CBOR.
cbor_started : closed (append_cbor (1 ∷ []) opened) ≡ 252 ∷ 1 ∷ 255 ∷ []
unfolding closed append_cbor
cbor_started = refl
