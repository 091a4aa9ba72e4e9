-- ===== src/DevMap/Reach.antt =====
-- What holds of every map of devices that the service can reach.
use device_service_zigbee.Prelude.{
  ℕ, ◌-◌, ◌≤◌, ◌≡◌, ◌≢◌, ◌⊎◌, ◌↔◌, refl, sym, ap, ◌∙◌, Bool, Option, none, some, List, ◌∷◌, Bytes,
  arith, ◌==◌, Bool-cases, Option-cases, inl, inr,
}
use mathlib.Core.Path.{subst}
use device_service_zigbee.Prelude.Outcome.{done, fault, bad_pointer}
use device_service_zigbee.Command.{DeviceProfile, CmdInfo}
use device_service_zigbee.DevMap.Maps.{StringMap}
use device_service_zigbee.DevMap.Entries.{Entry, Cell, AutoCall, stopped}
use device_service_zigbee.DevMap.{
  DevMap, id_of, name_of, write, load, dev_map, release, populate_devices, replace_device,
  device_byid, device_byname, device_forcmd, removedevice_byname, removedevice_byid, add_profile,
}
use device_service_zigbee.DevMap.Removal.{remove_locked-IsRemoved}
use device_service_zigbee.DevMap.Validity.{IsValid, dev_map-IsValid, rewritten-IsValid}
use device_service_zigbee.DevMap.Queued.{device_forcmd-IsValid}
use device_service_zigbee.DevMap.Steps.{
  IsFree, replace_device-IsValid, IsNew, populate_devices-IsValid, hold-IsHeld, device_byname_cases,
}

module _ (string_map : (V : Type 0) → StringMap V) where
  -- a device in the map is released only by who holds it
  abbrev pub IsLoose : DevMap string_map → ℕ → Type 0
  IsLoose m p =
      (c : Cell) × (m.cell p ≡ some c)
      × ((2 ≤ c.refs) ⊎ ((id : Bytes) → id_of string_map m id ≢ some p))

  -- a call that changes the map, short of its freeing, and returns, by a client that does not give a
  -- device the name or the id of another
  pub data Step (m m' : DevMap string_map) : Type 0 where
    populated :
        (es : List Entry)
        → IsNew string_map m es
        → populate_devices string_map m es ≡ done m'
        → Step m m'
    replaced :
        (e : Entry)
        → IsFree string_map m e.name e.id
        → replace_device string_map m e ≡ done m'
        → Step m m'
    named :
        (name : Bytes) (o : Option ℕ) → device_byname string_map m name ≡ done (o, m') → Step m m'
    identified :
        (id : Bytes) (o : Option ℕ) → device_byid string_map m id ≡ done (o, m') → Step m m'
    queued :
        (cmd : Bytes) (g : Bool) (q : List (ℕ × CmdInfo))
        → device_forcmd string_map m cmd g ≡ done (q, m')
        → Step m m'
    removed_name : (name : Bytes) → removedevice_byname string_map m name ≡ done m' → Step m m'
    removed_id : (id : Bytes) → removedevice_byid string_map m id ≡ done m' → Step m m'
    released : (p : ℕ) → IsLoose m p → release string_map m p ≡ done m' → Step m m'
    profiled : (prof : DeviceProfile) → m' ≡ add_profile string_map m prof → Step m m'

  pub data Reach (m : DevMap string_map) : DevMap string_map → Type 0 where
    here : Reach m m
    next : {m₁ m₂ : DevMap string_map} → Reach m m₁ → Step m₁ m₂ → Reach m m₂

  done-injective : {x y : DevMap string_map} → done x ≡ done y → x ≡ y
  done-injective h = cc

  -- nothing that the map finds
  unmapped-IsValid :
      (m : DevMap string_map) (p : ℕ) (c : Cell) (o : Option Cell) (calls : List AutoCall)
      → IsValid string_map m
      → m.cell p ≡ some c
      → ((id : Bytes) → id_of string_map m id ≢ some p)
      → IsValid string_map (record m { cell = write string_map m.cell p o; calls = calls })
  unmapped-IsValid m p c o calls v at lost = record {
    unused = λ q h. ground (arith, v.unused q h, at);
    by_id = λ id q h.
        let (d, (at', i, r, n, has)) = v.by_id id q h in
        let apart : p ≢ q = λ k. lost id (h ∙ ap some (sym k)) in
        (d, (ground (arith, apart, at'), i, r, n, has));
    by_name = λ name id h.
        let (q, d, at', i, n) = v.by_name name id h in
        let apart : p ≢ q = λ k. lost id (at' ∙ ap some (sym k)) in
        (q, d, at', ground (arith, apart, i), n);
  }

  release-IsValid :
      (m m' : DevMap string_map) (p : ℕ)
      → IsValid string_map m
      → IsLoose m p
      → release string_map m p ≡ done m'
      → IsValid string_map m'
  unfolding release load
  release-IsValid m m' p v (c, at, loose) h = elim (Bool-cases (c.refs == 1)) [
    | inl one ↦
        let freed : record m { cell = write string_map m.cell p none; calls = stopped p ∷ m.calls }
            ≡ m' =
          ground (arith, at, one, h) in
        elim loose [
          | inl two ↦ ground (arith, one, two)
          | inr lost ↦
              subst (IsValid string_map) freed
                (unmapped-IsValid m p c none (stopped p ∷ m.calls) v at lost)
        ]
    | inr more ↦
        let d = record c { refs = c.refs - 1 } in
        let left : record m { cell = write string_map m.cell p (some d) } ≡ m' =
          ground (arith, at, more, h) in
        elim loose [
          | inl two ↦
              subst (IsValid string_map) left
                (rewritten-IsValid string_map m p c d v at refl refl (λ k. omega arith) (λ k. k))
          | inr lost ↦
              subst (IsValid string_map) left (unmapped-IsValid m p c (some d) m.calls v at lost)
        ]
  ]

  removedevice_byid-IsValid :
      (m m' : DevMap string_map) (id : Bytes)
      → IsValid string_map m
      → removedevice_byid string_map m id ≡ done m'
      → IsValid string_map m'
  unfolding removedevice_byid
  removedevice_byid-IsValid m m' id v h = elim (Option-cases (id_of string_map m id)) [
    | inl n ↦ ground (arith, n, h)
    | inr (p, s) ↦
        let (w, k, kept) = remove_locked-IsRemoved string_map m id p v s in
        subst (IsValid string_map) (done-injective (ground (arith, s, k, h))) kept.0
  ]

  Step-IsValid :
      {m m' : DevMap string_map} → Step m m' → IsValid string_map m → IsValid string_map m'
  unfolding device_byid removedevice_byname removedevice_byid add_profile
  Step-IsValid {m} {m'} (populated es new e) v = populate_devices-IsValid string_map m m' es v new e
  Step-IsValid {m} {m'} (replaced e free h) v = replace_device-IsValid string_map m m' e v free h
  Step-IsValid {m} {m'} (named name o h) v = elim (device_byname_cases string_map m name v) [
    | inl (n, k) ↦ subst (IsValid string_map) (ground (arith, k, h)) v
    | inr (p, c, w, k, own, at, held) ↦ subst (IsValid string_map) (ground (arith, k, h)) held.2
  ]
  Step-IsValid {m} {m'} (identified id o h) v = elim (Option-cases (id_of string_map m id)) [
    | inl n ↦ subst (IsValid string_map) (ground (arith, n, h)) v
    | inr (p, s) ↦
        let (c, (at, i, r, n, has)) = v.by_id id p s in
        let (w, k, held) = hold-IsHeld string_map m p c v at in
        subst (IsValid string_map) (ground (arith, s, k, h)) held.2
  ]
  Step-IsValid {m} {m'} (queued cmd g q h) v = device_forcmd-IsValid string_map m m' cmd g q v h
  Step-IsValid {m} {m'} (removed_name name h) v = elim (Option-cases (name_of string_map m name)) [
    | inl n ↦ subst (IsValid string_map) (done-injective (ground (arith, n, h))) v
    | inr (id, s) ↦ removedevice_byid-IsValid m m' id v (ground (arith, s, h))
  ]
  Step-IsValid {m} {m'} (removed_id id h) v = removedevice_byid-IsValid m m' id v h
  Step-IsValid {m} {m'} (released p loose h) v = release-IsValid m m' p v loose h
  Step-IsValid {m} {m'} (profiled prof e) v =
      subst (IsValid string_map) (sym e)
        (record { unused = v.unused; by_id = v.by_id; by_name = v.by_name })

  pub Reach-IsValid : {m : DevMap string_map} → Reach (dev_map string_map) m → IsValid string_map m
  Reach-IsValid here = dev_map-IsValid string_map
  Reach-IsValid (next r s) = Step-IsValid s (Reach-IsValid r)

  -- In a valid map, the removal of a device by its id meets a bad pointer exactly if no device has
  -- the id.
  pub removedevice_byid_unknown :
      (m : DevMap string_map) (id : Bytes)
      → IsValid string_map m
      → (removedevice_byid string_map m id ≡ fault bad_pointer) ↔ (id_of string_map m id ≡ none)
  unfolding removedevice_byid
  removedevice_byid_unknown m id v = (
    λ h. elim (Option-cases (id_of string_map m id)) [
      | inl n ↦ n
      | inr (p, s) ↦
          let (w, k, kept) = remove_locked-IsRemoved string_map m id p v s in
          ground (arith, s, k, h)
    ],
    λ n. ground (arith, n),
  )
