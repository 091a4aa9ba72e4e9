-- ===== src/Command.antt =====
-- device-sdk-c/src/c/device.c: the commands that the profile of a device offers. The parallel arrays
-- of an `edgex_cmdinfo` are one list of their rows; lists of structs that a `next` field links are
-- lists.
pub mod Lookup
pub mod Event
pub mod Run
pub mod Url
pub mod Everywhere
pub mod Lamp
mod Tests
use device_service_zigbee.Prelude.{
  Bool, true, false, not, ◌&&◌, ◌||◌, Option, none, some, List, [], ◌∷◌, ◌++◌, Bytes, if◌then◌else◌,
  str_eq,
}
use device_service_zigbee.Prelude.Outcome.{Outcome, done, fault, bad_pointer, ◌>>=◌}
use device_service_zigbee.Value.{PropertyType}
use device_service_zigbee.Transform.{PropertyValue, NvPairs}

-- `edgex_resourceoperation`, as far as commands read it
pub record ResourceOperation : Type 0 where
  pub object : Bytes
  pub mappings : NvPairs

-- `edgex_deviceresource`; `value` is `properties->value`
pub record DeviceResource : Type 0 where
  pub name : Bytes
  pub attributes : NvPairs
  pub value : PropertyValue

-- `edgex_devicecommand`
pub record DeviceCommand : Type 0 where
  pub name : Bytes
  pub set : List ResourceOperation
  pub get : List ResourceOperation

-- `edgex_device_commandrequest`
pub record CommandRequest : Type 0 where
  pub resname : Bytes
  pub attributes : NvPairs
  pub type : PropertyType

-- a row of `reqs`, `pvals` and `maps`
pub record Row : Type 0 where
  pub req : CommandRequest
  pub pval : PropertyValue
  pub map : NvPairs

-- `edgex_cmdinfo`
pub record CmdInfo : Type 0 where
  pub name : Bytes
  pub isget : Bool
  pub rows : List Row

-- `edgex_deviceprofile`; no entry in `cmdinfo` is NULL there
pub record DeviceProfile : Type 0 where
  pub name : Bytes
  pub device_resources : List DeviceResource
  pub device_commands : List DeviceCommand
  pub cmdinfo : List CmdInfo

-- `findDevResource`
pub find_dev_resource : List DeviceResource → Bytes → Option DeviceResource
find_dev_resource [] name = none
find_dev_resource (r ∷ rs) name =
    let rest = find_dev_resource rs name in if str_eq r.name name then some r else rest

row_of : DeviceResource → NvPairs → Row
row_of r maps = record {
  req = record { resname = r.name; attributes = r.attributes; type = r.value.type };
  pval = r.value;
  map = maps;
}

-- a round of the loop of `infoForRes`, which does not test what `findDevResource` returns
pub row_for : List DeviceResource → ResourceOperation → Outcome Row
unfolding row_of
row_for rs ro = elim (find_dev_resource rs ro.object) [
  | none ↦ fault bad_pointer
  | some r ↦ done (row_of r ro.mappings)
]

pub rows_for : List DeviceResource → List ResourceOperation → Outcome (List Row)
rows_for rs [] = done []
rows_for rs (ro ∷ ros) = do row ← row_for rs ro; rows ← rows_for rs ros; done (row ∷ rows)

abbrev pub operations : DeviceCommand → Bool → List ResourceOperation
operations cmd for_get = if for_get then cmd.get else cmd.set

-- `infoForRes`
pub info_for_res : List DeviceResource → DeviceCommand → Bool → Outcome CmdInfo
info_for_res rs cmd for_get = do
  rows ← rows_for rs (operations cmd for_get)
  done (record { name = cmd.name; isget = for_get; rows = rows })

-- `infoForDevRes`
pub info_for_dev_res : DeviceResource → Bool → CmdInfo
unfolding row_of
info_for_dev_res r for_get = record { name = r.name; isget = for_get; rows = row_of r [] ∷ [] }

-- an entry for a direction in which the command has operations
pub info_if : List DeviceResource → DeviceCommand → Bool → Outcome (List CmdInfo)
info_if rs cmd for_get = elim (operations cmd for_get) [
  | [] ↦ done []
  | ro ∷ ros ↦ do info ← info_for_res rs cmd for_get; done (info ∷ [])
]

-- the first loop of `populateCmdInfo`
pub command_infos : List DeviceResource → List DeviceCommand → Outcome (List CmdInfo)
command_infos rs [] = done []
command_infos rs (cmd ∷ cmds) = do
  gets ← info_if rs cmd true
  sets ← info_if rs cmd false
  infos ← command_infos rs cmds
  done (gets ++ (sets ++ infos))

pub has_command : List DeviceCommand → Bytes → Bool
has_command [] name = false
has_command (cmd ∷ cmds) name = str_eq cmd.name name || has_command cmds name

-- the second loop: the resources that no command is named after
pub resource_infos : List DeviceCommand → List DeviceResource → List CmdInfo
resource_infos cmds [] = []
resource_infos cmds (r ∷ rs) =
    (if has_command cmds r.name
      then []
      else (if r.value.readable then info_for_dev_res r true ∷ [] else [])
        ++ (if r.value.writable then info_for_dev_res r false ∷ [] else []))
    ++ resource_infos cmds rs

-- `populateCmdInfo`
pub populate_cmd_info : DeviceProfile → Outcome DeviceProfile
populate_cmd_info prof = do
  infos ← command_infos prof.device_resources prof.device_commands
  done
      (record prof { cmdinfo = infos ++ resource_infos prof.device_commands prof.device_resources })

-- the profile with its table, which the first search makes
pub with_cmd_info : DeviceProfile → Outcome DeviceProfile
with_cmd_info prof = elim prof.cmdinfo [ [] ↦ populate_cmd_info prof | i ∷ is ↦ done prof ]

abbrev pub same : Bool → Bool → Bool
same a b = if a then b else not b

pub search : List CmdInfo → Bytes → Bool → Option CmdInfo
search [] name for_get = none
search (i ∷ is) name for_get =
    let rest = search is name for_get in
    if str_eq i.name name && same i.isget for_get then some i else rest

-- `edgex_deviceprofile_findcommand`
pub find_command : Bytes → DeviceProfile → Bool → Outcome (Option CmdInfo × DeviceProfile)
find_command name prof for_get = do
  prof' ← with_cmd_info prof
  done (search prof'.cmdinfo name for_get, prof')

pub any_named : List CmdInfo → Bytes → Bool
any_named [] name = false
any_named (i ∷ is) name = str_eq i.name name || any_named is name

-- `commandExists`
pub command_exists : Bytes → DeviceProfile → Outcome (Bool × DeviceProfile)
command_exists name prof = do prof' ← with_cmd_info prof; done (any_named prof'.cmdinfo name, prof')
