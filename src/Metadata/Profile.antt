-- ===== src/Metadata/Profile.antt =====
-- device-sdk-c/src/c/edgex-rest.c: resources and profiles. Logging and the freeing
-- of what could not be read are left out.
pub mod RoundTrip
use device_service_zigbee.Prelude.{
  ℕ, Bool, true, false, Option, none, some, List, [], ◌∷◌, ◌++◌, Bytes, codes,
}
use device_service_zigbee.Prelude.Outcome.{Outcome, done, ◌>>=◌}
use device_service_zigbee.Transform.{NvPairs}
use device_service_zigbee.Metadata.Json.{
  Json, text_value, number_value, make, get_string, get_number, get_object, get_array,
}
use device_service_zigbee.Metadata.Pairs.{
  array_to_strings, strings_to_array, nvpairs_read, nvpairs_write,
}
use device_service_zigbee.Metadata.Property.{
  ProfileProperty, profileproperty_read, profileproperty_write,
}
use device_service_zigbee.Metadata.Commands.{
  ResourceOperation, DeviceCommand, resourceoperation_read, operation_fields,
  resourceoperation_write, operations_read, operations_write, devicecommand_read, command_fields,
  devicecommand_write, commands_read, commands_write,
}
use device_service_zigbee.Metadata.Arguments.{NumberText}

-- `edgex_deviceresource`
pub record DeviceResource : Type 0 where
  pub name : Bytes
  pub description : Bytes
  pub tag : Bytes
  pub properties : ProfileProperty
  pub attributes : NvPairs

-- `edgex_deviceprofile`, without its table of commands
pub record DeviceProfile : Type 0 where
  pub id : Bytes
  pub name : Bytes
  pub description : Bytes
  pub created : ℕ
  pub modified : ℕ
  pub origin : ℕ
  pub manufacturer : Bytes
  pub model : Bytes
  pub labels : List Bytes
  pub device_resources : List DeviceResource
  pub device_commands : List DeviceCommand

module _ (j : Json) where
  -- what the writers set first, unless the thing is new
  abbrev pub identity_fields : Bool → Bytes → ℕ → ℕ → List (Bytes × Option j.Value)
  identity_fields true id created modified = []
  identity_fields false id created modified =
      (codes "id", text_value j id)
      ∷ (codes "created", number_value j created)
      ∷ (codes "modified", number_value j modified)
      ∷ []

  module _ (n : NumberText) where
    -- `deviceresource_read`: `none` where it returns NULL
    unfoldable pub deviceresource_read : Option j.Object → Outcome (Option DeviceResource)
    deviceresource_read obj = do
      pp ← profileproperty_read n j (get_object j obj (codes "properties"))
      elim pp [
        | none ↦ done none
        | some properties ↦ do
          attributes ← nvpairs_read j (get_object j obj (codes "attributes"))
          done (
              some (record {
                name = get_string j obj (codes "name");
                description = get_string j obj (codes "description");
                tag = get_string j obj (codes "tag");
                properties = properties;
                attributes = attributes;
              }))
      ]

    abbrev pub resource_fields : DeviceResource → j.Object → List (Bytes × Option j.Value)
    resource_fields e properties =
        (codes "name", text_value j e.name)
        ∷ (codes "description", text_value j e.description)
        ∷ (codes "tag", text_value j e.tag)
        ∷ (codes "properties", some (j.object properties))
        ∷ (codes "attributes", some (j.object (nvpairs_write j e.attributes)))
        ∷ []

    -- `deviceresource_write`
    unfoldable pub deviceresource_write : DeviceResource → Outcome j.Object
    deviceresource_write e = do
      properties ← profileproperty_write n j e.properties
      done (make j (resource_fields e properties))

    -- the loop of `deviceprofile_read` over resources, which ends at the first that cannot be read
    unfoldable pub resources_read : List j.Value → Outcome (Option (List DeviceResource))
    resources_read [] = done (some [])
    resources_read (v ∷ vs) = do
      r ← deviceresource_read (j.as_object v)
      elim r [
        | none ↦ done none
        | some r' ↦ do
          rest ← resources_read vs
          elim rest [ none ↦ done none | some rs ↦ done (some (r' ∷ rs)) ]
      ]

    unfoldable pub resources_write : List DeviceResource → Outcome (List j.Value)
    resources_write [] = done []
    resources_write (r ∷ rs) = do
      o ← deviceresource_write r
      os ← resources_write rs
      done (j.object o ∷ os)

    -- `deviceprofile_read`: `none` where it returns NULL
    unfoldable pub deviceprofile_read : Option j.Object → Outcome (Option DeviceProfile)
    deviceprofile_read obj = do
      resources ← resources_read (get_array j obj (codes "deviceResources"))
      elim resources [
        | none ↦ done none
        | some rs ↦ do
          cs ← commands_read j (get_array j obj (codes "deviceCommands"))
          done (
              some (record {
                id = get_string j obj (codes "id");
                name = get_string j obj (codes "name");
                description = get_string j obj (codes "description");
                created = get_number j obj (codes "created");
                modified = get_number j obj (codes "modified");
                origin = get_number j obj (codes "origin");
                manufacturer = get_string j obj (codes "manufacturer");
                model = get_string j obj (codes "model");
                labels = array_to_strings j (get_array j obj (codes "labels"));
                device_resources = rs;
                device_commands = cs;
              }))
      ]

    abbrev pub profile_fields : DeviceProfile → List j.Value → List (Bytes × Option j.Value)
    profile_fields e resources =
        (codes "name", text_value j e.name)
        ∷ (codes "description", text_value j e.description)
        ∷ (codes "origin", number_value j e.origin)
        ∷ (codes "manufacturer", text_value j e.manufacturer)
        ∷ (codes "model", text_value j e.model)
        ∷ (codes "labels", some (j.array (strings_to_array j e.labels)))
        ∷ (codes "deviceResources", some (j.array resources))
        ∷ (codes "deviceCommands", some (j.array (commands_write j e.device_commands)))
        ∷ []

    -- `deviceprofile_write`
    unfoldable pub deviceprofile_write : DeviceProfile → Bool → Outcome j.Object
    deviceprofile_write e create = do
      resources ← resources_write e.device_resources
      done (make j (identity_fields create e.id e.created e.modified ++ profile_fields e resources))
