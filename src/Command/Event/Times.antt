-- ===== src/Command/Event/Times.antt =====
-- The times of the readings of an event, as the client gets them.
use device_service_zigbee.Prelude.{ℕ, ◌≡◌, Option, none, some, List, [], ◌∷◌, if◌then◌else◌, ◌==◌}
use device_service_zigbee.Value.Equal.{CommandResult}
use device_service_zigbee.Command.Event.{Encoding, json, cbor, Reading, Event}
use device_service_zigbee.Command.Event.Cbor.{
  Pair, value_pair, name_pair, origin_pair, CborMaps, reading_map,
}

-- the time among the pairs of a map
abbrev pub time_in : List Pair → Option ℕ
time_in [] = none
time_in (origin_pair n ∷ ps) = some n
time_in (value_pair v ∷ ps) = time_in ps
time_in (name_pair s ∷ ps) = time_in ps

-- the driver's time for a result, or the event's; CBOR has none in place of the event's
abbrev pub time_due : Encoding → ℕ → ℕ → Option ℕ
time_due json now origin = some (if origin == 0 then now else origin)
time_due cbor now origin = if origin == 0 then none else some origin

module _ (lib : CborMaps) where
  -- the time of a reading that is sent
  abbrev pub time_sent : Reading → Option ℕ
  time_sent x = elim x.size [
    | none ↦ some x.origin
    | some n ↦ time_in (lib.pairs (reading_map lib x n))
  ]

  -- the readings have the times that are due to the results
  abbrev pub Timed : Encoding → ℕ → List CommandResult → List Reading → Type 0
  Timed enc now rs [] = Unit
  Timed enc now [] (x ∷ xs) = ⊥
  Timed enc now (r ∷ rs) (x ∷ xs) = (time_sent x ≡ time_due enc now r.origin) × Timed enc now rs xs
