-- ===== src/AutoEvent/Tests.antt =====
-- Runs of an automatic event on a camera.
use device_service_zigbee.Prelude.{
  ◌≡◌, refl, true, false, none, some, [], ◌∷◌, codes, arith, str_eq,
}
use device_service_zigbee.Prelude.Outcome.{done}
use device_service_zigbee.Value.Equal.{FloatEq, dup}
use device_service_zigbee.Command.{CmdInfo}
use device_service_zigbee.Command.Event.Picture.{picture_row, picture, sent, cbor_made}
use device_service_zigbee.Command.Lamp
use device_service_zigbee.Command.Run.{Service, locked, in_service}
use device_service_zigbee.Command.Url.{Devices}
use device_service_zigbee.AutoEvent.{
  AutoImpl, device_polled, device_released, event_posted, hold, changed, ae_runner,
}
use device_service_zigbee.AutoEvent.Runs.{ae_runner_once, ae_runner_refs}

abbrev bitwise : FloatEq
bitwise = record { eq32 = str_eq; eq64 = str_eq }

abbrev camera : CmdInfo
camera = record { name = codes "level"; isget = true; rows = picture_row ∷ [] }

abbrev service : Service
service = record Lamp.service { get_handler = λ name rows. some (picture ∷ []) }

abbrev watch : AutoImpl
watch = record {
  last = none;
  resource = camera;
  device = codes "desk";
  refs = 1;
  on_change = true;
  freed = false;
}

news : changed bitwise watch (picture ∷ []) ≡ done true
unfolding changed
news = refl

on : in_service Lamp.desk.admin_state Lamp.desk.operating_state ≡ true
unfolding in_service
on = refl

abbrev after : AutoImpl
after = record watch { last = some (dup (picture ∷ [])) }

ae_runner_once_example :
    (ae_runner service Lamp.devices bitwise (λ ev. true) watch
      ≡ done (
        after,
        device_polled (codes "desk") ∷ event_posted sent ∷ device_released (codes "desk") ∷ [],
      ))
    × (ae_runner service Lamp.devices bitwise (λ ev. true) after
        ≡ done (after, device_polled (codes "desk") ∷ device_released (codes "desk") ∷ []))
ae_runner_once_example =
    ae_runner_once service Lamp.devices bitwise (λ ev. true) watch Lamp.desk (picture ∷ []) sent
      refl on refl refl (omega arith) (refl, news, cbor_made) refl (tt, tt)

abbrev locked_desk : Devices
locked_desk = record {
  by_name = λ name. some (record Lamp.desk { admin_state = locked });
  by_id = λ id. none;
}

skipped :
    ae_runner service locked_desk bitwise (λ ev. true) watch
    ≡ done (hold watch, device_released (codes "desk") ∷ [])
unfolding ae_runner in_service
skipped = refl

ae_runner_refs_example : ((hold watch).freed ≡ false) × ((hold watch).refs ≡ 2)
unfolding in_service
ae_runner_refs_example =
    ae_runner_refs service locked_desk bitwise (λ ev. true) watch (hold watch)
      (device_released (codes "desk") ∷ []) refl (omega arith) skipped
