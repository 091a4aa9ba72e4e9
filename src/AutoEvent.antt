-- ===== src/AutoEvent.antt =====
-- device-sdk-c/src/c/autoevent.c: one run of an automatic event (`ae_runner`), with its count of
-- references. The driver, the map of devices, and the result of a post are parameters; what a run does
-- to the world is a list of effects. Logging and the correlation id are left out.
pub mod Runs
pub mod Frequency
mod Tests
use device_service_zigbee.Prelude.{
  ℕ, ◌+◌, ◌-◌, Bool, true, false, not, ◌&&◌, ◌||◌, Option, none, some, List, [], ◌∷◌, ◌++◌, Bytes,
  if◌then◌else◌, ◌==◌,
}
use device_service_zigbee.Prelude.Outcome.{Outcome, done, ◌>>=◌}
use device_service_zigbee.Value.Equal.{CommandResult, FloatEq, equal, dup}
use device_service_zigbee.Command.{CmdInfo}
use device_service_zigbee.Command.Event.{Event, process_event}
use device_service_zigbee.Command.Run.{Device, Service, in_service}
use device_service_zigbee.Command.Url.{Devices}

-- `edgex_autoimpl`, and whether it was freed
pub record AutoImpl : Type 0 where
  pub last : Option (List CommandResult)
  pub resource : CmdInfo
  pub device : Bytes
  pub refs : ℕ
  pub on_change : Bool
  pub freed : Bool

pub data AutoEffect : Type 0 where
  device_polled : Bytes → AutoEffect
  event_posted : Event → AutoEffect
  device_failed : Bytes → AutoEffect
  device_released : Bytes → AutoEffect
  unscheduled : AutoEffect

-- `atomic_fetch_add (&ai->refs, 1)`
pub hold : AutoImpl → AutoImpl
hold ai = record ai { refs = ai.refs + 1 }

-- `edgex_autoimpl_release`
pub release : AutoImpl → AutoImpl
release ai = record ai { refs = ai.refs - 1; freed = ai.freed || (ai.refs == 1) }

module _ (q : FloatEq) where
  -- the condition under which the results are sent
  pub changed : AutoImpl → List CommandResult → Outcome Bool
  changed ai results =
      if ai.on_change
      then elim ai.last [
        | none ↦ done true
        | some last ↦ do same ← equal q results last; done (not same)
      ]
      else done true

module _ (posted : Event → Bool) where
  -- behind the making of the event; `posted` is whether `edgex_data_client_add_event` succeeds
  pub push : AutoImpl → Device → List CommandResult → Option Event → AutoImpl × List AutoEffect
  push ai dev results none = (ai, device_failed dev.id ∷ [])
  push ai dev results (some ev) = (
    if posted ev && ai.on_change then record ai { last = some (dup results) } else ai,
    event_posted ev ∷ [],
  )

module _ (svc : Service) (devs : Devices) (q : FloatEq) (posted : Event → Bool) where
  pub send : AutoImpl → Device → List CommandResult → Outcome (AutoImpl × List AutoEffect)
  unfolding push
  send ai dev results = do
    ev ←
        process_event svc.float_text svc.long_double svc.now dev.name ai.resource.rows results
          svc.data_transform
    done (push posted ai dev results ev)

  pub poll : AutoImpl → Device → Outcome (AutoImpl × List AutoEffect)
  unfolding changed send
  poll ai dev = elim (svc.get_handler dev.name ai.resource.rows) [
    | none ↦ done (ai, [])
    | some results ↦ do
      news ← changed q ai results
      if news then send ai dev results else done (ai, [])
  ]

  -- `ae_runner`
  pub ae_runner : AutoImpl → Outcome (AutoImpl × List AutoEffect)
  unfolding hold release poll
  ae_runner ai = elim (devs.by_name ai.device) [
    | none ↦ done (release (hold ai), unscheduled ∷ [])
    | some dev ↦
        if in_service dev.admin_state dev.operating_state
        then (do
          (ai', effects) ← poll (hold ai) dev
          done (release ai', device_polled dev.name ∷ effects ++ (device_released dev.name ∷ [])))
        else done (hold ai, device_released dev.name ∷ [])
  ]
