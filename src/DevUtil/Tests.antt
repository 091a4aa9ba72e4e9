-- ===== src/DevUtil/Tests.antt =====
-- Lists of automatic events and of pairs.
use device_service_zigbee.Prelude.{◌≡◌, ◌↔◌, refl, true, false, [], ◌∷◌, codes, differ}
use device_service_zigbee.DevUtil.{
  find_named, all_found, list_equal, pair_equal, nvpairs_equal, AutoEvents, autoevents_equal,
}
use device_service_zigbee.DevUtil.Orders.{Shuffle, autoevents_equal_iff}

abbrev level : AutoEvents
level = record { resource = codes "level"; frequency = codes "5s"; on_change = true }

abbrev power : AutoEvents
power = record { resource = codes "power"; frequency = codes "1m"; on_change = false }

autoevents_equal_iff_example :
    (autoevents_equal (level ∷ power ∷ []) (power ∷ level ∷ []) ≡ true)
    ↔ Shuffle (level ∷ power ∷ []) (power ∷ level ∷ [])
autoevents_equal_iff_example =
    autoevents_equal_iff (level ∷ power ∷ []) (power ∷ level ∷ []) ((differ _ _ refl, tt), (tt, tt))

-- a name twice in the first list is found twice in the second
repeated :
    nvpairs_equal
      ((codes "a", codes "1") ∷ (codes "a", codes "1") ∷ [])
      ((codes "a", codes "1") ∷ (codes "b", codes "2") ∷ [])
    ≡ true
unfolding nvpairs_equal list_equal all_found find_named pair_equal
repeated = refl
