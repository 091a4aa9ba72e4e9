-- ===== src/Metadata/Commands.antt =====
-- device-sdk-c/src/c/edgex-rest.c: the commands of profiles. A JSON array that is given to an object
-- and changed behind that is written with what it holds in the end.
pub mod RoundTrip
use device_service_zigbee.Prelude.{
  ℕ, Bool, true, false, Option, none, some, List, [], ◌∷◌, ◌++◌, Bytes, codes,
}
use device_service_zigbee.Prelude.Outcome.{Outcome, done, ◌>>=◌}
use device_service_zigbee.Transform.{NvPairs}
use device_service_zigbee.Metadata.Json.{
  Json, text_value, number_value, make, get_string, get_number, get_object, get_array,
}
use device_service_zigbee.Metadata.Pairs.{
  array_to_strings, strings_to_array, nvpairs_read, nvpairs_write,
}
use device_service_zigbee.Metadata.Property.{
  ProfileProperty, profileproperty_read, profileproperty_write,
}

-- `edgex_resourceoperation`
pub record ResourceOperation : Type 0 where
  pub index : Bytes
  pub operation : Bytes
  pub object : Bytes
  pub property : Bytes
  pub parameter : Bytes
  pub resource : Bytes
  pub secondary : List Bytes
  pub mappings : NvPairs

-- `edgex_devicecommand`
pub record DeviceCommand : Type 0 where
  pub name : Bytes
  pub set : List ResourceOperation
  pub get : List ResourceOperation

module _ (j : Json) where
  -- `resourceoperation_read`
  unfoldable pub resourceoperation_read : Option j.Object → Outcome ResourceOperation
  resourceoperation_read obj = do
    mappings ← nvpairs_read j (get_object j obj (codes "mappings"))
    done (record {
      index = get_string j obj (codes "index");
      operation = get_string j obj (codes "operation");
      object = get_string j obj (codes "object");
      property = get_string j obj (codes "property");
      parameter = get_string j obj (codes "parameter");
      resource = get_string j obj (codes "resource");
      secondary = array_to_strings j (get_array j obj (codes "secondary"));
      mappings = mappings;
    })

  abbrev pub operation_fields : ResourceOperation → List (Bytes × Option j.Value)
  operation_fields e =
      (codes "index", text_value j e.index)
      ∷ (codes "operation", text_value j e.operation)
      ∷ (codes "object", text_value j e.object)
      ∷ (codes "property", text_value j e.property)
      ∷ (codes "parameter", text_value j e.parameter)
      ∷ (codes "resource", text_value j e.resource)
      ∷ (codes "secondary", some (j.array (strings_to_array j e.secondary)))
      ∷ (codes "mappings", some (j.object (nvpairs_write j e.mappings)))
      ∷ []

  -- `resourceoperation_write`
  abbrev pub resourceoperation_write : ResourceOperation → j.Object
  resourceoperation_write e = make j (operation_fields e)

  -- a loop of `devicecommand_read`
  unfoldable pub operations_read : List j.Value → Outcome (List ResourceOperation)
  operations_read [] = done []
  operations_read (v ∷ vs) = do
    o ← resourceoperation_read (j.as_object v)
    os ← operations_read vs
    done (o ∷ os)

  -- a loop of `devicecommand_write`
  unfoldable pub operations_write : List ResourceOperation → List j.Value
  operations_write [] = []
  operations_write (o ∷ os) = j.object (resourceoperation_write o) ∷ operations_write os

  -- `devicecommand_read`
  unfoldable pub devicecommand_read : Option j.Object → Outcome DeviceCommand
  devicecommand_read obj = do
    set ← operations_read (get_array j obj (codes "set"))
    get ← operations_read (get_array j obj (codes "get"))
    done (record { name = get_string j obj (codes "name"); set = set; get = get })

  abbrev pub command_fields : DeviceCommand → List j.Value → List (Bytes × Option j.Value)
  command_fields e array =
      (codes "name", text_value j e.name)
      ∷ (codes "set", some (j.array array))
      ∷ (codes "get", some (j.array []))
      ∷ []

  -- `devicecommand_write`: `array` and `array2` are both the array of `array_val`, so that both loops
  -- append to it, and `array_val2` stays empty
  unfoldable pub devicecommand_write : DeviceCommand → j.Object
  devicecommand_write e =
      make j (command_fields e (operations_write e.set ++ operations_write e.get))

  -- the loop of `deviceprofile_read` over commands
  unfoldable pub commands_read : List j.Value → Outcome (List DeviceCommand)
  commands_read [] = done []
  commands_read (v ∷ vs) = do
    c ← devicecommand_read (j.as_object v)
    cs ← commands_read vs
    done (c ∷ cs)

  unfoldable pub commands_write : List DeviceCommand → List j.Value
  commands_write [] = []
  commands_write (c ∷ cs) = j.object (devicecommand_write c) ∷ commands_write cs
