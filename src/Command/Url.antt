-- ===== src/Command/Url.antt =====
-- device-sdk-c/src/c/device.c: a request's path and the command it runs on one device. The map of
-- devices is an interface, and commands on all devices are left out.
pub mod Routes
pub mod Answers
use device_service_zigbee.Prelude.{
  ℕ, Bool, true, false, Option, none, some, List, [], ◌∷◌, Bytes, codes, starts_with, drop,
  if◌then◌else◌, ◌==◌,
}
use device_service_zigbee.Prelude.Outcome.{Outcome, done, fault, out_of_bounds, ◌>>=◌}
use device_service_zigbee.Command.{CmdInfo, DeviceProfile, find_command, command_exists}
use device_service_zigbee.Command.Event.{Event}
use device_service_zigbee.Command.Run.{
  HttpStatus, ok, not_found, method_not_allowed, Device, Effect, Service, run_one,
}

abbrev pub slash : ℕ
slash = b'/'

-- a request for all devices; one for the device of a name (`true`) or an id; or none
pub data Route : Type 0 where
  to_all : Bytes → Route
  to_one : Bool → Bytes → Bytes → Route
  no_route : Route

-- `strchr (url, '/')` with the text before it and behind it
pub split_path : Bytes → Option (Bytes × Bytes)
split_path [] = none
split_path (c ∷ s) =
    let rest = split_path s in
    if c == slash then some ([], s) else elim rest [ none ↦ none | some (a, b) ↦ some (c ∷ a, b) ]

pub route_one : Bool → Bytes → Route
route_one by_name url = elim (split_path url) [
  | none ↦ no_route
  | some (id, []) ↦ no_route
  | some (id, c ∷ cmd) ↦ to_one by_name id (c ∷ cmd)
]

-- `url += 5` behind the four characters that the code compares: past the end of a text of four
pub skip_name : Bytes → Outcome Bytes
skip_name [] = fault out_of_bounds
skip_name (c ∷ s) = done s

-- the branches of `edgex_device_handler_device`
pub route : Bytes → Outcome Route
unfolding route_one skip_name split_path
route [] = done no_route
route (c ∷ s) =
    if starts_with (codes "all/") (c ∷ s)
    then elim (drop 4 (c ∷ s)) [ [] ↦ done no_route | d ∷ cmd ↦ done (to_all (d ∷ cmd)) ]
    else if starts_with (codes "name") (c ∷ s)
    then (do url ← skip_name (drop 4 (c ∷ s)); done (route_one true url))
    else done (route_one false (c ∷ s))

-- what edgex_devmap_device_byname and edgex_devmap_device_byid find
pub record Devices : Type 0 where
  pub by_name : Bytes → Option Device
  pub by_id : Bytes → Option Device

pub record Answer : Type 0 where
  pub status : HttpStatus
  pub effects : List Effect
  pub reply : Option Event

abbrev pub answer : HttpStatus → Answer
answer code = record { status = code; effects = []; reply = none }

module _ (svc : Service) (devs : Devices) where
  -- the first lines of `oneCommand`
  abbrev pub device_for : Bool → Bytes → Option Device
  device_for by_name id = if by_name then devs.by_name id else devs.by_id id

  pub run_found : Device → CmdInfo → Bytes → Outcome Answer
  run_found dev info body = do
    ((code, effects), reply) ← run_one svc dev info body
    done (record { status = code; effects = effects; reply = reply })

  pub run_on : Device → Bytes → Bool → Bytes → Outcome Answer
  run_on dev cmd for_get body = do
    (found, prof) ← find_command cmd dev.profile for_get
    elim found [
      | some info ↦ run_found (record dev { profile = prof }) info body
      | none ↦ do
        (other, _) ← command_exists cmd prof
        done (answer (if other then method_not_allowed else not_found))
    ]

  -- `oneCommand`; `for_get` is whether the method is GET
  pub one_command : Bytes → Bool → Bytes → Bool → Bytes → Outcome Answer
  unfolding run_on run_found
  one_command id by_name cmd for_get body = elim (device_for by_name id) [
    | none ↦ done (answer not_found)
    | some dev ↦ run_on dev cmd for_get body
  ]
