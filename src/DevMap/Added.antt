-- ===== src/DevMap/Added.antt =====
-- What `add_locked` does to the map of devices.
use device_service_zigbee.Prelude.{◌≡◌, refl, some, [], arith, Option-cases, inl, inr}
use mathlib.Core.List.{reverse}
use device_service_zigbee.Prelude.Outcome.{done, >>=-eq-done}
use device_service_zigbee.Command.{DeviceProfile}
use device_service_zigbee.DevMap.Maps.{StringMap}
use device_service_zigbee.DevMap.Entries.{Entry, there, device_dup}
use device_service_zigbee.DevMap.Entries.Kept.{
  HasProfile, IsCopy, IsCopied, device_dup-IsCopy, device_dup-IsCopied,
}
use device_service_zigbee.DevMap.{DevMap, with_profile, add_entry, add_locked}

module _ (string_map : (V : Type 0) → StringMap V) where
  -- a copy of the device is added, with a profile, to the map with some profiles
  abbrev pub IsAdded : DevMap string_map → Entry → DevMap string_map → Type 0
  IsAdded m e m' =
      (d : Entry) × (profiles : (string_map DeviceProfile).Map) × HasProfile d
      × IsCopy d e
      × (m' ≡ add_entry string_map (record m { profiles = profiles }) d)

  with_profile_cases :
      (m : DevMap string_map) (p : DeviceProfile)
      → (q : DeviceProfile) × (profiles : (string_map DeviceProfile).Map) × (with_profile string_map
            m p
          ≡ (q, record m { profiles = profiles }))
  unfolding with_profile
  with_profile_cases m p = elim (Option-cases ((string_map DeviceProfile).get m.profiles p.name)) [
    | inl n ↦ (p, (string_map DeviceProfile).set m.profiles p.name p, ground (arith, n))
    | inr (q, s) ↦ (q, m.profiles, ground (arith, s))
  ]

  pub add_locked-IsAdded :
      (m m' : DevMap string_map) (e : Entry) → add_locked string_map m e ≡ done m' → IsAdded m e m'
  unfolding add_locked
  add_locked-IsAdded m m' e h =
      let (dup, k, h₁) = >>=-eq-done (device_dup e) _ h in
      let (p, k', h₂) = >>=-eq-done (there dup.profile) _ h₁ in
      let (q, profiles, w) = with_profile_cases m p in
      let kept = device_dup-IsCopy e dup k in
      (record dup { profile = some q }, profiles, (q, refl), kept, ground (arith, w, h₂))

  pub add_locked-IsCopied :
      (m : DevMap string_map) (e : Entry)
      → IsCopied e
      → (m' : DevMap string_map) × (add_locked string_map m e ≡ done m')
  unfolding add_locked
  add_locked-IsCopied m e c =
      let (q, profiles, w) = with_profile_cases m (record c.0 { cmdinfo = [] }) in
      (
        add_entry string_map (record m { profiles = profiles })
            (record e { protocols = reverse e.protocols; profile = some q }),
        ground (arith, device_dup-IsCopied e c, w),
      )
