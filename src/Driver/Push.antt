-- ===== src/Driver/Push.antt =====
-- random/device-random.c, `PushEvent`: an event that a sensor sends of itself, with
-- user_push_event_read of random/user.c and edgex_device_post_readings of
-- device-sdk-c/src/c/service.c.
pub mod Composition
use device_service_zigbee.Prelude.{ℕ, true, Option, none, some, List, [], ◌∷◌, map, Bytes, tail}
use device_service_zigbee.Prelude.Outcome.{Outcome, done, ◌>>=◌, ◌>>◌}
use device_service_zigbee.Value.{PropertyType}
use device_service_zigbee.Value.Equal.{CommandResult}
use device_service_zigbee.Queue.Spec.{head}
use device_service_zigbee.Frame.{SensorEvent, take_event, free_event}
use device_service_zigbee.Command.{Row, CmdInfo, find_command}
use device_service_zigbee.Command.Event.{Event, process_event}
use device_service_zigbee.Command.Run.{Device, Service}
use device_service_zigbee.Command.Url.{Devices}
use device_service_zigbee.Driver.{Queues}
use device_service_zigbee.Driver.Values.{read_array}

-- `user_push_event`
pub record PushEvent : Type 0 where
  pub device_name : Bytes
  pub resource_name : Bytes
  pub values : List CommandResult

abbrev pub types : CmdInfo → List PropertyType
types info = map (λ (row : Row). row.pval.type) info.rows

module _ (svc : Service) (devs : Devices) where
  -- the command of the event, if the device is known and can be read by that name
  pub command_of : Bytes → Bytes → Outcome (Option CmdInfo)
  command_of devname resname = elim (devs.by_name devname) [
    | none ↦ done none
    | some dev ↦ do (info, _) ← find_command resname dev.profile true; done info
  ]

  -- `user_push_event_read`
  pub push_event_read : Bytes → Outcome (Option PushEvent)
  unfolding command_of
  push_event_read frame = do
    ev ← take_event frame
    command ← command_of ev.name ev.command_device
    elim command [
      | none ↦ do free_event ev; done none
      | some info ↦ do
        values ← read_array svc.float_text ev.origin (types info) ev.value
        free_event ev
        elim values [
          | none ↦ done none
          | some rs ↦ done (
              some
                (record { device_name = ev.name; resource_name = ev.command_device; values = rs }))
        ]
    ]

  -- `edgex_device_post_readings`: the event that is handed to the thread pool for posting
  pub post_readings : Bytes → Bytes → List CommandResult → Outcome (Option Event)
  unfolding command_of
  post_readings devname resname values = do
    command ← command_of devname resname
    elim command [
      | none ↦ done none
      | some info ↦
          process_event svc.float_text svc.long_double svc.now devname info.rows values
            svc.data_transform
    ]

  -- a round of `PushEvent`, with the event that it posts
  pub push_event : Queues → Outcome (Option Event × Queues)
  unfolding push_event_read post_readings
  push_event qs = elim (head qs.events) [
    | none ↦ done (none, qs)
    | some s ↦ do
      event ← push_event_read s
      elim event [
        | none ↦ done (none, record qs { events = tail qs.events })
        | some e ↦ do
          posted ← post_readings e.device_name e.resource_name e.values
          done (posted, record qs { events = tail qs.events })
      ]
  ]
