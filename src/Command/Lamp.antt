-- ===== src/Command/Lamp.antt =====
-- A device for the tests: a lamp with one resource of sixteen bits, and a driver that always succeeds.
use device_service_zigbee.Prelude.{
  ◌≡◌, refl, Bool, true, false, Option, none, some, [], ◌∷◌, Bytes, codes,
}
use device_service_zigbee.Prelude.Int.{pos}
use device_service_zigbee.Prelude.Outcome.{done, fault, bad_arithmetic}
use device_service_zigbee.Value.{w16, uint, FloatText, uint_result}
use device_service_zigbee.Value.Equal.{CommandResult}
use device_service_zigbee.Transform.{TransformArg, PropertyValue, LongDouble}
use device_service_zigbee.Command.{
  DeviceResource, DeviceCommand, Row, CmdInfo, DeviceProfile, find_dev_resource, row_for, rows_for,
  info_for_res, info_for_dev_res, info_if, command_infos, has_command, resource_infos,
  populate_cmd_info, with_cmd_info, search, find_command,
}
use device_service_zigbee.Command.Event.{json, text, Event}
use device_service_zigbee.Command.Run.{unlocked, enabled, Device, Service}
use device_service_zigbee.Command.Url.{Devices}

abbrev pub no_text : FloatText
no_text = record { print32 = λ b. []; scan32 = λ s. none; print64 = λ b. []; scan64 = λ s. none }

abbrev pub no_floats : LongDouble
no_floats = record {
  of_float = λ b. b;
  of_double = λ b. b;
  of_int = λ z. [];
  to_float = λ b. some b;
  to_double = λ b. some b;
  to_int = λ b. fault bad_arithmetic;
  round = λ b. fault bad_arithmetic;
  pow = λ a b. a;
  log = λ a. a;
  add = λ a b. a;
  sub = λ a b. a;
  mul = λ a b. a;
  div = λ a b. a;
}

abbrev pub off : TransformArg
off = record { enabled = false; ival = pos 0; dval = [] }

abbrev pub sixteen_bits : PropertyValue
sixteen_bits = record {
  type = uint w16;
  readable = true;
  writable = true;
  mask = off;
  shift = off;
  scale = off;
  offset = off;
  base = off;
  assertion = none;
  float_as_binary = false;
}

abbrev pub level : DeviceResource
level = record { name = codes "level"; attributes = []; value = sixteen_bits }

abbrev pub level_row : Row
level_row = record {
  req = record { resname = codes "level"; attributes = []; type = uint w16 };
  pval = sixteen_bits;
  map = [];
}

abbrev pub dim : DeviceCommand
dim = record {
  name = codes "dim";
  set = record { object = codes "level"; mappings = [] } ∷ [];
  get = [];
}

abbrev pub profile : DeviceProfile
profile = record {
  name = codes "lamp";
  device_resources = level ∷ [];
  device_commands = dim ∷ [];
  cmdinfo = [];
}

abbrev pub dim_info : CmdInfo
dim_info = record { name = codes "dim"; isget = false; rows = level_row ∷ [] }

abbrev pub level_info : Bool → CmdInfo
level_info g = record { name = codes "level"; isget = g; rows = level_row ∷ [] }

abbrev pub full_profile : DeviceProfile
full_profile = record profile { cmdinfo = dim_info ∷ level_info true ∷ level_info false ∷ [] }

abbrev pub result : CommandResult
result = record { origin = 0; value = uint_result w16 300 }

abbrev pub event : Event
event = record {
  encoding = json;
  device = codes "desk";
  origin = 77;
  readings =
      record { name = codes "level"; value = text (codes "300"); origin = 77; size = none } ∷ [];
}

abbrev pub object : Bytes → Option Bytes
object name = some (codes "300")

abbrev pub service : Service
service = record {
  float_text = no_text;
  long_double = no_floats;
  now = 77;
  data_transform = false;
  max_cmd_ops = 8;
  get_handler = λ name rows. some (result ∷ []);
  put_handler = λ name rows rs. true;
  parse = λ s. some object;
}

abbrev pub desk : Device
desk = record {
  id = codes "d1";
  name = codes "desk";
  admin_state = unlocked;
  operating_state = enabled;
  profile = profile;
}

abbrev pub devices : Devices
devices = record { by_name = λ name. some desk; by_id = λ id. none }

pub level_found :
    find_command (codes "level") profile true ≡ done (some (level_info true), full_profile)
unfolding find_command with_cmd_info populate_cmd_info command_infos info_if info_for_res rows_for
    row_for find_dev_resource resource_infos has_command info_for_dev_res search
level_found = refl
