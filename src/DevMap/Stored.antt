-- ===== src/DevMap/Stored.antt =====
-- What the map of devices finds after a device was given to it.
use device_service_zigbee.Prelude.{
  ℕ, ◌≡◌, ◌≢◌, sym, ap, ◌∙◌, none, some, Bytes, arith, Option-cases, inl, inr,
}
use device_service_zigbee.Prelude.Outcome.{done}
use device_service_zigbee.DevMap.Maps.{StringMap}
use device_service_zigbee.DevMap.Entries.{Entry, Cell}
use device_service_zigbee.DevMap.{
  DevMap, id_of, name_of, write, load, add_entry, add_locked, replace_device,
}
use device_service_zigbee.DevMap.Removal.{remove_locked-IsRemoved}
use device_service_zigbee.DevMap.Validity.{IsValid}
use device_service_zigbee.DevMap.Steps.{IsFree}
use device_service_zigbee.DevMap.Entries.Kept.{
  IsCopied, update_in_place-IsUpdated, update_in_place_runs,
}
use device_service_zigbee.DevMap.Added.{add_locked-IsAdded, add_locked-IsCopied}

-- the fields that the service reads, as they were given
abbrev pub Agrees : Entry → Entry → Type 0
Agrees d e =
    (d.id ≡ e.id)
    × (d.name ≡ e.name)
    × (d.admin_state ≡ e.admin_state)
    × (d.operating_state ≡ e.operating_state)
    × (d.details ≡ e.details)

module _ (string_map : (V : Type 0) → StringMap V) where
  -- a device found by the id
  abbrev pub IsStored : DevMap string_map → Entry → Type 0
  IsStored m e =
      (p : ℕ) × (c : Cell) × (id_of string_map m e.id ≡ some p)
      × (m.cell p ≡ some c)
      × Agrees c.entry e
      × (name_of string_map m e.name ≡ some e.id)

  add_locked-IsStored :
      (m m' : DevMap string_map) (e : Entry) → add_locked string_map m e ≡ done m' → IsStored m' e
  unfolding add_entry
  add_locked-IsStored m m' e h =
      let (d, profiles, has, (same_id, same_name, adm, op, det, auto, prot), made) =
        add_locked-IsAdded string_map m m' e h in
      let stored = (string_map ℕ).get-set_self m.devices d.id m.fresh in
      let named = (string_map Bytes).get-set_self m.name_to_id d.name d.id in
      (
        m.fresh,
        record { entry = d; refs = 1 },
        ground (arith, made, stored, same_id),
        ground (arith, made),
        (same_id, same_name, adm, op, det),
        ground (arith, made, named, same_id, same_name),
      )

  -- A device that has a profile in which every resource has an assertion, given to a valid map, and whose
  -- name no other device has, is found by its id and its name, with the states and details given,
  -- whether it was new, was updated in place, or was replaced.
  pub replace_device-IsStored :
      (m : DevMap string_map) (e : Entry)
      → IsValid string_map m
      → IsFree string_map m e.name e.id
      → IsCopied e
      → (m' : DevMap string_map) × (replace_device string_map m e ≡ done m') × IsStored m' e
  unfolding replace_device load
  replace_device-IsStored m e v free copied = elim (Option-cases (id_of string_map m e.id)) [
    | inl new ↦
        let (m', k) = add_locked-IsCopied string_map m e copied in
        (m', ground (arith, new, k), add_locked-IsStored m m' e k)
    | inr (p, found) ↦
        let (c, (at, i, r, n, has)) = v.by_id e.id p found in
        let (o, u) = update_in_place_runs c.entry e has (copied.0, copied.1) in
        elim (Option-cases o) [
          | inr (e', w) ↦
              let (same_id, same_name, name, adm, op, det, prof) =
                update_in_place-IsUpdated c.entry e e' has (ground (arith, u, w)) in
              (
                record m { cell = write string_map m.cell p (some (record c { entry = e' })) },
                ground (arith, found, at, u, w),
                (
                  p,
                  record c { entry = e' },
                  found,
                  ground arith,
                  (same_id ∙ i, name, adm, op, det),
                  ap (name_of string_map m) (sym name ∙ same_name) ∙ n,
                ),
              )
          | inl w ↦
              let (m₁, k, removed) = remove_locked-IsRemoved string_map m e.id p v found in
              let (m', k') = add_locked-IsCopied string_map m₁ e copied in
              (m', ground (arith, found, at, u, w, k, k'), add_locked-IsStored m₁ m' e k')
        ]
  ]

  -- A device with a new id and the name of another, and a profile in which every resource has an
  -- assertion, is taken by a valid map all the same: the other is still there by its id, and its
  -- name now leads to the new one.
  pub replace_device_stolen :
      (m : DevMap string_map) (e : Entry) (id : Bytes)
      → IsValid string_map m
      → id_of string_map m e.id ≡ none
      → name_of string_map m e.name ≡ some id
      → IsCopied e
      → (m' : DevMap string_map) × (p : ℕ) × (c : Cell) × (replace_device string_map m e ≡ done m')
        × (id_of string_map m' id ≡ some p)
        × (m'.cell p ≡ some c)
        × (c.entry.name ≡ e.name)
        × (name_of string_map m' e.name ≡ some e.id)
        × (id ≢ e.id)
  unfolding replace_device add_entry
  replace_device_stolen m e id v new taken copied =
      let (p, c, at, i, n) = v.by_name e.name id taken in
      let other : id ≢ e.id = λ k. ground (arith, k, at, new) in
      let (m', k) = add_locked-IsCopied string_map m e copied in
      let (d, profiles, has, (same_id, same_name, adm, op, det, auto, prot), made) =
        add_locked-IsAdded string_map m m' e k in
      let kept = (string_map ℕ).get-set_ne m.devices id e.id m.fresh other in
      let named = (string_map Bytes).get-set_self m.name_to_id e.name e.id in
      let unused = v.unused m.fresh (omega arith) in
      (
        m',
        p,
        c,
        ground (arith, new, k),
        ground (arith, made, kept, at, same_id),
        ground (arith, made, i, unused),
        n,
        ground (arith, made, named, same_id, same_name),
        other,
      )
