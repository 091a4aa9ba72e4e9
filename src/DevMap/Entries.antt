-- ===== src/DevMap/Entries.antt =====
-- device-sdk-c/src/c/devmap.c: devices, their copies (edgex_device_dup of edgex-rest.c, which keeps what
-- it is not said to change), and updates in place.
pub mod Kept
use device_service_zigbee.Prelude.{
  ℕ, ◌+◌, ◌-◌, Bool, true, false, ◌&&◌, Option, none, some, List, [], ◌∷◌, Bytes, str_eq, ◌==◌,
  if◌then◌else◌,
}
use mathlib.Core.List.{reverse}
use device_service_zigbee.Prelude.Outcome.{Outcome, done, fault, bad_pointer, ◌>>=◌}
use device_service_zigbee.Command.{DeviceResource, DeviceProfile, CmdInfo, find_command}
use device_service_zigbee.Command.Run.{AdminState, OperatingState, in_service}
use device_service_zigbee.DevUtil.{Protocol, protocols_equal, AutoEvents, autoevents_equal}
use device_service_zigbee.DevMap.Maps.{StringMap}

-- the fields of `edgex_device` that nothing here looks into
pub record Details : Type 0 where
  pub description : Bytes
  pub labels : List Bytes
  pub created : ℕ
  pub last_connected : ℕ
  pub last_reported : ℕ
  pub modified : ℕ
  pub origin : ℕ

-- `edgex_device` without its count and its service; its profile is NULL where it could not be read, its
-- service never is
pub record Entry : Type 0 where
  pub id : Bytes
  pub name : Bytes
  pub admin_state : AdminState
  pub operating_state : OperatingState
  pub protocols : List Protocol
  pub autos : List AutoEvents
  pub profile : Option DeviceProfile
  pub details : Details

pub record Cell : Type 0 where
  pub entry : Entry
  pub refs : ℕ

-- calls of edgex_device_autoevent_start and edgex_device_autoevent_stop
pub data AutoCall : Type 0 where
  started stopped : ℕ → AutoCall

-- a pointer that the code does not test
abbrev pub there : {A : Type 0} → Option A → Outcome A
there none = fault bad_pointer
there (some x) = done x

-- the part of `propertyvalue_dup` that can fail: the copy of an assertion that is NULL
unfoldable pub resources_dup : List DeviceResource → Outcome (List DeviceResource)
resources_dup [] = done []
resources_dup (r ∷ rs) = do
  assertion ← there r.value.assertion
  rest ← resources_dup rs
  done (record r { value = record r.value { assertion = some assertion } } ∷ rest)

-- `edgex_deviceprofile_dup`: the copy has no table of commands
unfoldable pub profile_dup : Option DeviceProfile → Outcome (Option DeviceProfile)
unfolding resources_dup
profile_dup none = done none
profile_dup (some p) = do
  resources ← resources_dup p.device_resources
  done (some (record p { device_resources = resources; cmdinfo = [] }))

-- `edgex_device_dup`, which puts the protocols back to front
unfoldable pub device_dup : Entry → Outcome Entry
unfolding profile_dup
device_dup e = do
  profile ← profile_dup e.profile
  done (record e { protocols = reverse e.protocols; profile = profile })

-- `update_in_place`: `none` where it returns false
unfoldable pub update_in_place : Entry → Entry → Outcome (Option Entry)
update_in_place dest src =
    if str_eq dest.name src.name
    then (do
      p ← there dest.profile
      q ← there src.profile
      done (
          if str_eq p.name q.name
            && (autoevents_equal dest.autos src.autos
                && protocols_equal dest.protocols src.protocols)
          then some (record dest {
            admin_state = src.admin_state;
            operating_state = src.operating_state;
            details = src.details;
          })
          else none))
    else done none
