-- ===== src/DevMap/Tests.antt =====
-- A map with one lamp.
use device_service_zigbee.Prelude.{ℕ, ◌≡◌, ◌≢◌, ◌↔◌, refl, inr, none, some, [], ◌∷◌, codes}
use device_service_zigbee.Prelude.Outcome.{done, fault, bad_pointer}
use device_service_zigbee.Command.Lamp
use device_service_zigbee.Command.{DeviceResource, DeviceProfile}
use device_service_zigbee.Command.Run.{unlocked, locked, enabled}
use device_service_zigbee.DevMap.Lists.{pairs}
use device_service_zigbee.DevMap.Entries.{Entry, Cell, device_dup}
use device_service_zigbee.DevMap.{
  DevMap, id_of, name_of, dev_map, with_profile, add_entry, add_locked, populate_one,
  populate_devices, replace_device, removedevice_byid,
}
use device_service_zigbee.DevMap.Validity.{IsValid}
use device_service_zigbee.DevMap.Reach.{
  here, next, populated, Reach-IsValid, removedevice_byid_unknown,
}
use device_service_zigbee.DevMap.Stored.{IsStored, replace_device-IsStored, replace_device_stolen}

-- the level of the lamp, with an assertion
abbrev asserted_level : DeviceResource
asserted_level = record Lamp.level { value = record Lamp.sixteen_bits { assertion = some [] } }

abbrev asserted : DeviceProfile
asserted = record Lamp.profile { device_resources = asserted_level ∷ [] }

abbrev lamp : Entry
lamp = record {
  id = codes "d1";
  name = codes "desk";
  admin_state = unlocked;
  operating_state = enabled;
  protocols = [];
  autos = [];
  profile = some asserted;
  details = record {
    description = [];
    labels = [];
    created = 1;
    last_connected = 0;
    last_reported = 0;
    modified = 1;
    origin = 0;
  };
}

empty_at_first : id_of pairs (dev_map pairs) (codes "d1") ≡ none
unfolding dev_map
empty_at_first = refl

-- the map with the lamp
abbrev one : DevMap pairs
one = add_entry pairs (record (dev_map pairs) { profiles = (codes "lamp", asserted) ∷ [] }) lamp

one_made : populate_devices pairs (dev_map pairs) (lamp ∷ []) ≡ done one
unfolding dev_map populate_devices populate_one add_locked with_profile add_entry device_dup
one_made = refl

one_step : populate_one pairs (dev_map pairs) lamp ≡ done one
unfolding dev_map populate_one add_locked with_profile add_entry device_dup
one_step = refl

one-IsValid : IsValid pairs one
one-IsValid =
    Reach-IsValid pairs
      (next here (populated (lamp ∷ []) (one, one_step, inr empty_at_first, tt) one_made))

removedevice_byid_unknown_example :
    (removedevice_byid pairs one (codes "d2") ≡ fault bad_pointer)
    ↔ (id_of pairs one (codes "d2") ≡ none)
removedevice_byid_unknown_example = removedevice_byid_unknown pairs one (codes "d2") one-IsValid

known : name_of pairs one (codes "desk") ≡ some (codes "d1")
unfolding dev_map add_entry
known = refl

unknown : id_of pairs one (codes "d2") ≡ none
unfolding dev_map add_entry
unknown = refl

replace_device-IsStored_example :
    (m' : DevMap pairs) × (replace_device pairs one (record lamp { admin_state = locked })
      ≡ done m')
    × IsStored pairs m' (record lamp { admin_state = locked })
replace_device-IsStored_example =
    replace_device-IsStored pairs one (record lamp { admin_state = locked }) one-IsValid (inr known)
      (asserted, refl, (([], refl), tt))

replace_device_stolen_example :
    (m' : DevMap pairs) × (p : ℕ) × (c : Cell) × (replace_device pairs one
        (record lamp { id = codes "d2" })
      ≡ done m')
    × (id_of pairs m' (codes "d1") ≡ some p)
    × (m'.cell p ≡ some c)
    × (c.entry.name ≡ codes "desk")
    × (name_of pairs m' (codes "desk") ≡ some (codes "d2"))
    × (codes "d1" ≢ codes "d2")
replace_device_stolen_example =
    replace_device_stolen pairs one (record lamp { id = codes "d2" }) (codes "d1") one-IsValid
      unknown known (asserted, refl, (([], refl), tt))
