-- ===== src/Metadata/Copies.antt =====
-- device-sdk-c/src/c/edgex-rest.c: the functions that copy devices and what belongs to them. A copied
-- text is the text; the copy of a text that is NULL is a fault, where the code does not test for it.
pub mod Same
use device_service_zigbee.Prelude.{Option, none, some, List, [], ◌∷◌, Bytes}
use device_service_zigbee.Prelude.Outcome.{Outcome, done, fault, bad_pointer, ◌>>=◌}
use device_service_zigbee.Transform.{PropertyValue, NvPairs}
use device_service_zigbee.DevUtil.{Protocol, AutoEvents}
use device_service_zigbee.Metadata.Property.{PropertyTexts, Units, ProfileProperty}
use device_service_zigbee.Metadata.Commands.{ResourceOperation, DeviceCommand}
use device_service_zigbee.Metadata.Profile.{DeviceResource, DeviceProfile}
use device_service_zigbee.Metadata.Service.{Addressable, DeviceService}
use device_service_zigbee.Metadata.Device.{Device}

-- `edgex_strings_dup`
strings_dup : List Bytes → List Bytes
strings_dup [] = []
strings_dup (s ∷ ss) = s ∷ strings_dup ss

-- `edgex_nvpairs_dup`
nvpairs_dup : NvPairs → NvPairs
nvpairs_dup [] = []
nvpairs_dup ((name, value) ∷ ps) = (name, value) ∷ nvpairs_dup ps

-- `strdup`
abbrev text_dup : Option Bytes → Outcome (Option Bytes)
text_dup none = fault bad_pointer
text_dup (some s) = done (some s)

-- `propertyvalue_dup`
abbrev propertyvalue_dup : PropertyValue → PropertyTexts → Outcome (PropertyValue × PropertyTexts)
propertyvalue_dup v x = do
  assertion ← text_dup v.assertion
  done (
    record {
      type = v.type;
      readable = v.readable;
      writable = v.writable;
      mask = v.mask;
      shift = v.shift;
      scale = v.scale;
      offset = v.offset;
      base = v.base;
      assertion = assertion;
      float_as_binary = v.float_as_binary;
    },
    record {
      minimum = x.minimum;
      maximum = x.maximum;
      default_value = x.default_value;
      lsb = x.lsb;
      precision = x.precision;
      media_type = x.media_type;
    },
  )

-- `units_dup`
abbrev units_dup : Units → Units
units_dup u = record { type = u.type; readwrite = u.readwrite; default_value = u.default_value }

-- `profileproperty_dup`
abbrev profileproperty_dup : ProfileProperty → Outcome ProfileProperty
profileproperty_dup p = do
  (v, x) ← propertyvalue_dup p.value p.texts
  done (record { value = v; texts = x; units = units_dup p.units })

-- `edgex_deviceresource_dup`
deviceresource_dup : List DeviceResource → Outcome (List DeviceResource)
deviceresource_dup [] = done []
deviceresource_dup (e ∷ es) = do
  properties ← profileproperty_dup e.properties
  rest ← deviceresource_dup es
  done (
      record {
        name = e.name;
        description = e.description;
        tag = e.tag;
        properties = properties;
        attributes = nvpairs_dup e.attributes;
      }
      ∷ rest)

-- `resourceoperation_dup`
resourceoperation_dup : List ResourceOperation → List ResourceOperation
resourceoperation_dup [] = []
resourceoperation_dup (e ∷ es) =
    record {
      index = e.index;
      operation = e.operation;
      object = e.object;
      property = e.property;
      parameter = e.parameter;
      resource = e.resource;
      secondary = strings_dup e.secondary;
      mappings = nvpairs_dup e.mappings;
    }
    ∷ resourceoperation_dup es

-- `devicecommand_dup`
devicecommand_dup : List DeviceCommand → List DeviceCommand
devicecommand_dup [] = []
devicecommand_dup (e ∷ es) =
    record { name = e.name; set = resourceoperation_dup e.set; get = resourceoperation_dup e.get }
    ∷ devicecommand_dup es

-- `edgex_deviceprofile_dup`
deviceprofile_dup : Option DeviceProfile → Outcome (Option DeviceProfile)
deviceprofile_dup none = done none
deviceprofile_dup (some e) = do
  resources ← deviceresource_dup e.device_resources
  done (
      some (record {
        id = e.id;
        name = e.name;
        description = e.description;
        created = e.created;
        modified = e.modified;
        origin = e.origin;
        manufacturer = e.manufacturer;
        model = e.model;
        labels = strings_dup e.labels;
        device_resources = resources;
        device_commands = devicecommand_dup e.device_commands;
      }))

-- `autoevents_dup`
autoevents_dup : List AutoEvents → List AutoEvents
autoevents_dup [] = []
autoevents_dup (e ∷ es) =
    record { resource = e.resource; frequency = e.frequency; on_change = e.on_change }
    ∷ autoevents_dup es

-- the loop of `edgex_protocols_dup`, with the list so far
copy_protocols : List Protocol → List Protocol → List Protocol
copy_protocols [] result = result
copy_protocols (p ∷ ps) result =
    copy_protocols ps (record { name = p.name; properties = nvpairs_dup p.properties } ∷ result)

-- `edgex_protocols_dup`
abbrev protocols_dup : List Protocol → List Protocol
protocols_dup ps = copy_protocols ps []

-- `edgex_addressable_dup`
abbrev addressable_dup : Addressable → Addressable
addressable_dup e = record {
  address = e.address;
  created = e.created;
  id = e.id;
  method = e.method;
  modified = e.modified;
  name = e.name;
  origin = e.origin;
  password = e.password;
  path = e.path;
  port = e.port;
  protocol = e.protocol;
  publisher = e.publisher;
  topic = e.topic;
  user = e.user;
}

-- `edgex_deviceservice_dup`
abbrev deviceservice_dup : DeviceService → DeviceService
deviceservice_dup e = record {
  addressable = addressable_dup e.addressable;
  admin_state = e.admin_state;
  created = e.created;
  description = e.description;
  id = e.id;
  labels = strings_dup e.labels;
  last_connected = e.last_connected;
  last_reported = e.last_reported;
  modified = e.modified;
  name = e.name;
  operating_state = e.operating_state;
  origin = e.origin;
}

-- `edgex_device_dup`
pub device_dup : Device → Outcome Device
device_dup e = do
  profile ← deviceprofile_dup e.profile
  done (record {
    protocols = protocols_dup e.protocols;
    admin_state = e.admin_state;
    created = e.created;
    description = e.description;
    id = e.id;
    labels = strings_dup e.labels;
    last_connected = e.last_connected;
    last_reported = e.last_reported;
    modified = e.modified;
    name = e.name;
    operating_state = e.operating_state;
    origin = e.origin;
    autos = autoevents_dup e.autos;
    service = deviceservice_dup e.service;
    profile = profile;
  })
