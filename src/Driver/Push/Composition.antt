-- ===== src/Driver/Push/Composition.antt =====
-- From a sensor's frame to the event that is posted.
use device_service_zigbee.Prelude.{◌≡◌, true, none, some, List, ◌∷◌, Bytes, arith}
use device_service_zigbee.Prelude.Outcome.{done, ◌>>=◌}
use device_service_zigbee.Value.{Value}
use device_service_zigbee.Frame.{SensorEvent}
use device_service_zigbee.Frame.RoundTrip.{event_frame}
use device_service_zigbee.Frame.Faults.{free_event-filled}
use device_service_zigbee.Command.{CmdInfo, DeviceProfile, find_command}
use device_service_zigbee.Command.Event.{process_event}
use device_service_zigbee.Command.Run.{Device, Service}
use device_service_zigbee.Command.Url.{Devices}
use device_service_zigbee.Driver.{Queues}
use device_service_zigbee.Driver.Values.RoundTrip.{
  IsFrame, ReadAs, stamped, take_event-IsFrame, read_array-ReadAs,
}
use device_service_zigbee.Driver.Push.{
  types, command_of, push_event_read, post_readings, push_event,
}

module _ (svc : Service) (devs : Devices) (qs : Queues) (ev : SensorEvent)
    (ss rest : List Bytes) where
  -- Where the frame of a sensor is at the head of the queue, its device is known, its command can be read
  -- there, and it has a text for each row of the command, it becomes the event that
  -- `edgex_data_process_event` makes of its values, stamped with its time, and is taken out of the queue.
  -- The frame's origin and number of values are below 2 ^ 31, its texts have no '#', and its device and
  -- command names have none either and do not end in "value".
  pub push_event-event_frame :
      (dev : Device) (info : CmdInfo) (p : DeviceProfile) (vs : List Value)
      → qs.events ≡ event_frame ev ss ∷ rest
      → IsFrame ev ss
      → devs.by_name ev.name ≡ some dev
      → find_command ev.command_device dev.profile true ≡ done (some info, p)
      → ReadAs svc.float_text (types info) ss vs
      → push_event svc devs qs ≡ (
          process_event svc.float_text svc.long_double svc.now ev.name info.rows
            (stamped ev.origin vs)
            svc.data_transform
          >>= λ posted. done (posted, record qs { events = rest }))
  unfolding push_event push_event_read post_readings command_of
  push_event-event_frame dev info p vs head h known found r = ground (
    arith,
    head,
    take_event-IsFrame ev ss h,
    known,
    found,
    h.5,
    h.6,
    read_array-ReadAs svc.float_text ev.origin (types info) ss vs r,
    free_event-filled ev ss h.6 h.5,
  )

  -- A frame of a device that is not known is dropped, and nothing is posted.
  pub push_event_unknown :
      qs.events ≡ event_frame ev ss ∷ rest
      → IsFrame ev ss
      → devs.by_name ev.name ≡ none
      → push_event svc devs qs ≡ done (none, record qs { events = rest })
  unfolding push_event push_event_read command_of
  push_event_unknown head h unknown =
      ground (arith, head, take_event-IsFrame ev ss h, unknown, free_event-filled ev ss h.6 h.5)
