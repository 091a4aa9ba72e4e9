-- ===== src/Metadata/Pairs.antt =====
-- device-sdk-c/src/c/edgex-rest.c: lists of strings, of names with values, of protocols and of
-- automatic events.
pub mod Order
pub mod Protocols
use device_service_zigbee.Prelude.{Option, none, some, List, [], ◌∷◌, Bytes, if◌then◌else◌}
use device_service_zigbee.Prelude.Outcome.{Outcome, done, fault, bad_pointer, ◌>>=◌}
use device_service_zigbee.Transform.{NvPairs}
use device_service_zigbee.DevUtil.{Protocol}
use device_service_zigbee.Metadata.Json.{Json, first, text_value, make}

module _ (j : Json) where
  -- `array_to_strings`, with `get_array_string`
  unfoldable pub array_to_strings : List j.Value → List Bytes
  array_to_strings [] = []
  array_to_strings (v ∷ vs) = first (j.as_string v) [] ∷ array_to_strings vs

  -- `strings_to_array`: what is not a text is not appended
  unfoldable pub strings_to_array : List Bytes → List j.Value
  strings_to_array [] = []
  strings_to_array (s ∷ ss) =
      let rest = strings_to_array ss in if j.is_text s then j.string s ∷ rest else rest

  abbrev pub pair_fields : NvPairs → List (Bytes × Option j.Value)
  pair_fields [] = []
  pair_fields ((name, value) ∷ ps) = (name, text_value j value) ∷ pair_fields ps

  -- `nvpairs_write`
  abbrev pub nvpairs_write : NvPairs → j.Object
  nvpairs_write ps = make j (pair_fields ps)

  -- `strdup`, of a pointer that may be NULL
  abbrev pub string_of : Option Bytes → Outcome Bytes
  string_of none = fault bad_pointer
  string_of (some s) = done s

  -- the loop of `nvpairs_read`, with the list so far
  unfoldable pub read_pairs : List (Bytes × j.Value) → NvPairs → Outcome NvPairs
  read_pairs [] ps = done ps
  read_pairs ((name, v) ∷ ms) ps = do
    value ← string_of (j.as_string v)
    read_pairs ms ((name, value) ∷ ps)

  -- the members of an object that may be NULL
  abbrev pub members_of : Option j.Object → List (Bytes × j.Value)
  members_of none = []
  members_of (some o) = j.members o

  -- `nvpairs_read`
  abbrev pub nvpairs_read : Option j.Object → Outcome NvPairs
  nvpairs_read o = read_pairs (members_of o) []

  -- the loop of `protocols_read`
  unfoldable pub read_protocols : List (Bytes × j.Value) → List Protocol → Outcome (List Protocol)
  read_protocols [] ps = done ps
  read_protocols ((name, v) ∷ ms) ps = do
    properties ← nvpairs_read (j.as_object v)
    read_protocols ms (record { name = name; properties = properties } ∷ ps)

  -- `protocols_read`
  abbrev pub protocols_read : Option j.Object → Outcome (List Protocol)
  protocols_read o = read_protocols (members_of o) []

  abbrev pub protocol_fields : List Protocol → List (Bytes × Option j.Value)
  protocol_fields [] = []
  protocol_fields (p ∷ ps) =
      (p.name, some (j.object (nvpairs_write p.properties))) ∷ protocol_fields ps

  -- `protocols_write`
  abbrev pub protocols_write : List Protocol → j.Object
  protocols_write ps = make j (protocol_fields ps)
