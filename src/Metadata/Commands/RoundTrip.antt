-- ===== src/Metadata/Commands/RoundTrip.antt =====
-- What is read of the commands of a profile that were written.
use device_service_zigbee.Prelude.{
  ◌≡◌, refl, sym, ap, ◌∙◌, List, [], ◌∷◌, ◌++◌, map, codes, All, All-append, some,
}
use mathlib.Core.List.{reverse}
use device_service_zigbee.Prelude.Outcome.{done}
use device_service_zigbee.Metadata.Json.{Json, IsText}
use device_service_zigbee.Metadata.Json.Fields.{get_string-make, get_object-make, get_array-make}
use device_service_zigbee.Metadata.Pairs.{strings_to_array, nvpairs_write}
use device_service_zigbee.Metadata.Pairs.Order.{
  IsPairs, array_to_strings-strings_to_array, nvpairs_read-nvpairs_write,
}
use device_service_zigbee.Metadata.Commands.{
  ResourceOperation, DeviceCommand, resourceoperation_read, resourceoperation_write,
  operation_fields, operations_read, operations_write, devicecommand_read, devicecommand_write,
  commands_read, commands_write, command_fields,
}

-- with its mappings back to front
abbrev pub turned : ResourceOperation → ResourceOperation
turned e = record e { mappings = reverse e.mappings }

-- what is left of a command: its operations of both kinds are there to set
abbrev pub merged : DeviceCommand → DeviceCommand
merged e = record { name = e.name; set = map turned (e.set ++ e.get); get = [] }

module _ (j : Json) where
  -- texts and pairs that JSON can hold
  pub record IsOperation (e : ResourceOperation) : Type 0 where
    pub index : IsText j e.index
    pub operation : IsText j e.operation
    pub object : IsText j e.object
    pub property : IsText j e.property
    pub parameter : IsText j e.parameter
    pub resource : IsText j e.resource
    pub secondary : All (IsText j) e.secondary
    pub mappings : IsPairs j e.mappings

  resourceoperation_read-resourceoperation_write :
      (e : ResourceOperation)
      → IsOperation e
      → resourceoperation_read j (some (resourceoperation_write j e)) ≡ done (turned e)
  unfolding resourceoperation_read
  resourceoperation_read-resourceoperation_write e h =
      let fields = operation_fields j e in
      rw
        (
          get_object-make j fields (codes "mappings") (nvpairs_write j e.mappings) refl,
          nvpairs_read-nvpairs_write j e.mappings h.mappings,
          get_array-make j fields (codes "secondary") (strings_to_array j e.secondary) refl,
          array_to_strings-strings_to_array j e.secondary h.secondary,
          get_string-make j fields (codes "index") e.index refl h.index,
          get_string-make j fields (codes "operation") e.operation refl h.operation,
          get_string-make j fields (codes "object") e.object refl h.object,
          get_string-make j fields (codes "property") e.property refl h.property,
          get_string-make j fields (codes "parameter") e.parameter refl h.parameter,
          get_string-make j fields (codes "resource") e.resource refl h.resource,
        )
        refl

  operations_read-operations_write :
      (es : List ResourceOperation)
      → All IsOperation es
      → operations_read j (operations_write j es) ≡ done (map turned es)
  unfolding operations_read operations_write
  operations_read-operations_write [] h = refl
  operations_read-operations_write (e ∷ es) h =
      rw
        (
          j.as_object-object (resourceoperation_write j e),
          resourceoperation_read-resourceoperation_write e h.0,
          operations_read-operations_write es h.1,
        )
        refl

  operations_write-append :
      (es fs : List ResourceOperation)
      → operations_write j (es ++ fs) ≡ operations_write j es ++ operations_write j fs
  unfolding operations_write
  operations_write-append [] fs = refl
  operations_write-append (e ∷ es) fs =
      ap (◌∷◌ (j.object (resourceoperation_write j e))) (operations_write-append es fs)

  -- a command that JSON can hold
  abbrev pub IsCommand : DeviceCommand → Type 0
  IsCommand e = IsText j e.name × All IsOperation e.set × All IsOperation e.get

  -- A command with texts that JSON can hold, no name twice in a list of mappings, read from what is
  -- written of it, sets with its operations of both kinds, those to set first, each with its mappings
  -- back to front, and has none to get.
  pub devicecommand_read-devicecommand_write :
      (e : DeviceCommand)
      → IsCommand e
      → devicecommand_read j (some (devicecommand_write j e)) ≡ done (merged e)
  unfolding devicecommand_read devicecommand_write operations_read
  devicecommand_read-devicecommand_write e h =
      let all = operations_write j e.set ++ operations_write j e.get in
      let fields = command_fields j e all in
      let set_read : operations_read j all ≡ done (map turned (e.set ++ e.get)) =
        ap (operations_read j) (sym (operations_write-append e.set e.get))
        ∙ operations_read-operations_write (e.set ++ e.get)
            (All-append IsOperation e.set e.get h.1 h.2) in
      rw
        (
          get_array-make j fields (codes "set") all refl,
          set_read,
          get_array-make j fields (codes "get") [] refl,
          get_string-make j fields (codes "name") e.name refl h.0,
        )
        refl

  pub commands_read-commands_write :
      (es : List DeviceCommand)
      → All IsCommand es
      → commands_read j (commands_write j es) ≡ done (map merged es)
  unfolding commands_read commands_write
  commands_read-commands_write [] h = refl
  commands_read-commands_write (e ∷ es) h =
      rw
        (
          j.as_object-object (devicecommand_write j e),
          devicecommand_read-devicecommand_write e h.0,
          commands_read-commands_write es h.1,
        )
        refl
