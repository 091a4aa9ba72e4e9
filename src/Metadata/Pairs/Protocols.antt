-- ===== src/Metadata/Pairs/Protocols.antt =====
-- What is read of protocols that were written.
use device_service_zigbee.Prelude.{
  ◌≡◌, ◌≢◌, refl, ap, ◌∙◌, some, List, [], ◌∷◌, map, Bytes, arith, All,
}
use mathlib.Core.List.{reverse, reverse_aux}
use device_service_zigbee.Prelude.Outcome.{done}
use device_service_zigbee.Transform.{NvPairs}
use device_service_zigbee.DevUtil.{Protocol}
use device_service_zigbee.Metadata.Json.{Json, make}
use device_service_zigbee.Metadata.Pairs.{
  nvpairs_write, protocols_read, protocols_write, read_protocols, protocol_fields,
}
use device_service_zigbee.Metadata.Pairs.Order.{
  DistinctNames, IsPairs, present, members-make, nvpairs_read-nvpairs_write,
}

-- with its properties back to front
abbrev pub turned : Protocol → Protocol
turned p = record p { properties = reverse p.properties }

abbrev pub names : List Protocol → List (Bytes × NvPairs)
names [] = []
names (p ∷ ps) = (p.name, p.properties) ∷ names ps

module _ (j : Json) where
  abbrev objects : List Protocol → List (Bytes × j.Value)
  objects [] = []
  objects (p ∷ ps) = (p.name, j.object (nvpairs_write j p.properties)) ∷ objects ps

  objects-apart :
      (k : Bytes) (ps : List Protocol)
      → All (λ q. q.0 ≢ k) (names ps)
      → All (λ q. q.0 ≢ k) (objects ps)
  objects-apart k [] d = tt
  objects-apart k (p ∷ ps) d = (d.0, objects-apart k ps d.1)

  objects-DistinctNames :
      (ps : List Protocol) → DistinctNames (names ps) → DistinctNames (objects ps)
  objects-DistinctNames [] d = tt
  objects-DistinctNames (p ∷ ps) d = (objects-apart p.name ps d.0, objects-DistinctNames ps d.1)

  protocol_fields-present : (ps : List Protocol) → protocol_fields j ps ≡ present j (objects ps)
  protocol_fields-present [] = refl
  protocol_fields-present (p ∷ ps) = ground (arith, protocol_fields-present ps)

  read_protocols-objects :
      (ps acc : List Protocol)
      → All (λ (p : Protocol). IsPairs j p.properties) ps
      → read_protocols j (objects ps) acc ≡ done (reverse_aux (map turned ps) acc)
  unfolding read_protocols
  read_protocols-objects [] acc h = refl
  read_protocols-objects (p ∷ ps) acc h = ground (
    arith,
    j.as_object-object (nvpairs_write j p.properties),
    nvpairs_read-nvpairs_write j p.properties h.0,
    read_protocols-objects ps (turned p ∷ acc) h.1,
  )

  -- Protocols whose names differ, and whose properties have different names and text values, are read
  -- back to front, each with its properties back to front.
  pub protocols_read-protocols_write :
      (ps : List Protocol)
      → DistinctNames (names ps)
      → All (λ (p : Protocol). IsPairs j p.properties) ps
      → protocols_read j (some (protocols_write j ps)) ≡ done (reverse (map turned ps))
  protocols_read-protocols_write ps d h =
      let held : j.members (protocols_write j ps) ≡ objects ps =
        ap (λ fields. j.members (make j fields)) (protocol_fields-present ps)
        ∙ members-make j (objects ps) (objects-DistinctNames ps d) in
      ap (λ ms. read_protocols j ms []) held ∙ read_protocols-objects ps [] h
