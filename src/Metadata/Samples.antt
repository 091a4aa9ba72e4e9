-- ===== src/Metadata/Samples.antt =====
-- A lamp of the Zigbee service, with its profile, as JSON trees.
use device_service_zigbee.Prelude.{refl, true, false, some, [], ◌∷◌, codes, arith, differ, inl, inr}
use device_service_zigbee.Prelude.Int.{pos}
use device_service_zigbee.Value.{uint, w8}
use device_service_zigbee.Transform.{PropertyValue}
use device_service_zigbee.Command.Run.{locked, enabled}
use device_service_zigbee.Metadata.Property.{PropertyTexts}
use device_service_zigbee.Metadata.Property.RoundTrip.{IsWritable}
use device_service_zigbee.Metadata.Profile.{DeviceResource, DeviceProfile}
use device_service_zigbee.Metadata.Commands.RoundTrip.{IsOperation}
use device_service_zigbee.Metadata.Profile.RoundTrip.{IsProfile, IsResource}
use device_service_zigbee.Metadata.Device.{Device}
use device_service_zigbee.Metadata.Device.RoundTrip.{IsDevice}
use device_service_zigbee.Metadata.Trees.{trees, number_text}
use device_service_zigbee.Metadata.Arguments.{no_arg, int_arg}
use device_service_zigbee.Metadata.Commands.{ResourceOperation, DeviceCommand}
use device_service_zigbee.Metadata.Service.{Addressable, DeviceService}

abbrev pub level : PropertyValue
level = record {
  type = uint w8;
  readable = true;
  writable = false;
  mask = no_arg;
  shift = no_arg;
  scale = int_arg (pos 2);
  offset = no_arg;
  base = no_arg;
  assertion = some [];
  float_as_binary = true;
}

abbrev pub level_texts : PropertyTexts
level_texts = record {
  minimum = codes "0";
  maximum = codes "100";
  default_value = [];
  lsb = [];
  precision = [];
  media_type = [];
}

pub level-IsWritable : IsWritable number_text trees level level_texts
level-IsWritable = record {
  mask = inl refl;
  shift = inl refl;
  scale = inr (refl, pos 2, omega arith, refl);
  offset = inl refl;
  base = inl refl;
  used = refl;
  assertion = ([], refl, refl);
  minimum = refl;
  maximum = refl;
  default_value = refl;
  lsb = refl;
  precision = refl;
  media_type = refl;
}

abbrev pub light : DeviceResource
light = record {
  name = codes "Light";
  description = [];
  tag = [];
  properties = record {
    value = level;
    texts = level_texts;
    units = record { type = codes "level"; readwrite = codes "R"; default_value = [] };
  };
  attributes = (codes "port", codes "1") ∷ (codes "kind", codes "lamp") ∷ [];
}

pub light-IsResource : IsResource number_text trees light
light-IsResource = record {
  name = refl;
  description = refl;
  tag = refl;
  value = level-IsWritable;
  units = (refl, refl, refl);
  attributes = (((differ (codes "kind") (codes "port") refl, tt), (tt, tt)), (refl, (refl, tt)));
}

abbrev pub operation : ResourceOperation
operation = record {
  index = codes "1";
  operation = codes "get";
  object = codes "Light";
  property = [];
  parameter = [];
  resource = [];
  secondary = codes "Other" ∷ [];
  mappings = [];
}

pub operation-IsOperation : IsOperation trees operation
operation-IsOperation = record {
  index = refl;
  operation = refl;
  object = refl;
  property = refl;
  parameter = refl;
  resource = refl;
  secondary = (refl, tt);
  mappings = (tt, tt);
}

abbrev pub read_light : DeviceCommand
read_light = record { name = codes "ReadLight"; set = []; get = operation ∷ [] }

abbrev pub lamp : DeviceProfile
lamp = record {
  id = codes "7";
  name = codes "Lamp";
  description = [];
  created = 10;
  modified = 20;
  origin = 30;
  manufacturer = codes "Acme";
  model = codes "L1";
  labels = codes "zigbee" ∷ [];
  device_resources = light ∷ [];
  device_commands = read_light ∷ [];
}

pub lamp-IsProfile : IsProfile number_text trees lamp
lamp-IsProfile = record {
  id = refl;
  name = refl;
  description = refl;
  created = omega arith;
  modified = omega arith;
  origin = omega arith;
  manufacturer = refl;
  model = refl;
  labels = (refl, tt);
  device_resources = (light-IsResource, tt);
  device_commands = ((refl, tt, (operation-IsOperation, tt)), tt);
}

abbrev pub here : Addressable
here = record {
  address = codes "localhost";
  created = 1;
  id = [];
  method = codes "POST";
  modified = 1;
  name = codes "service";
  origin = 0;
  password = [];
  path = codes "/";
  port = 49990;
  protocol = codes "HTTP";
  publisher = [];
  topic = [];
  user = [];
}

abbrev pub service : DeviceService
service = record {
  addressable = here;
  admin_state = locked;
  created = 1;
  description = [];
  id = codes "3";
  labels = [];
  last_connected = 0;
  last_reported = 0;
  modified = 1;
  name = codes "zigbee";
  operating_state = enabled;
  origin = 0;
}

abbrev pub hall : Device
hall = record {
  protocols =
      record { name = codes "zigbee"; properties = (codes "address", codes "12") ∷ [] } ∷ [];
  admin_state = locked;
  created = 5;
  description = [];
  id = codes "9";
  labels = codes "hall" ∷ [];
  last_connected = 0;
  last_reported = 0;
  modified = 6;
  name = codes "Hall";
  operating_state = enabled;
  origin = 0;
  autos = record { resource = codes "ReadLight"; frequency = codes "10s"; on_change = true } ∷ [];
  service = service;
  profile = some lamp;
}

pub hall-IsDevice : IsDevice trees number_text hall lamp
hall-IsDevice = record {
  names_differ = (tt, tt);
  protocols = (((tt, tt), (refl, tt)), tt);
  created = omega arith;
  description = refl;
  id = refl;
  labels = (refl, tt);
  last_connected = omega arith;
  last_reported = omega arith;
  modified = omega arith;
  name = refl;
  origin = omega arith;
  service = record {
    addressable = record {
      address = refl;
      created = omega arith;
      id = refl;
      method = refl;
      modified = omega arith;
      name = refl;
      origin = omega arith;
      password = refl;
      path = refl;
      port = omega arith;
      protocol = refl;
      publisher = refl;
      topic = refl;
      user = refl;
    };
    created = omega arith;
    description = refl;
    id = refl;
    labels = tt;
    last_connected = omega arith;
    last_reported = omega arith;
    modified = omega arith;
    name = refl;
    origin = omega arith;
  };
  has_profile = refl;
  profile = lamp-IsProfile;
}
