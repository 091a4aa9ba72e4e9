-- ===== src/DevMap/Steps.antt =====
-- The calls of the map of devices, one after another.
use device_service_zigbee.Prelude.{
  ℕ, ◌+◌, ◌≡◌, ◌∙◌, ◌≢◌, ◌⊎◌, refl, none, some, List, [], ◌∷◌, Bytes, arith, Option-cases, inl, inr,
}
use mathlib.Core.Path.{subst}
use device_service_zigbee.Prelude.Outcome.{done, Outcome-cases}
use device_service_zigbee.DevMap.Maps.{StringMap}
use device_service_zigbee.DevMap.Entries.{Entry, Cell, update_in_place}
use device_service_zigbee.DevMap.{
  DevMap, id_of, name_of, write, load, populate_one, populate_devices, replace_device, hold,
  device_byname,
}
use device_service_zigbee.DevMap.Entries.Kept.{update_in_place-IsUpdated}
use device_service_zigbee.DevMap.Removal.{remove_locked-IsRemoved}
use device_service_zigbee.DevMap.Validity.{IsValid, add_locked-IsValid, rewritten-IsValid}

module _ (string_map : (V : Type 0) → StringMap V) where
  -- nobody else has the name
  abbrev pub IsFree : DevMap string_map → Bytes → Bytes → Type 0
  IsFree m name id = (name_of string_map m name ≡ none) ⊎ (name_of string_map m name ≡ some id)

  -- A call that replaces a device, under a name that no other has, leaves a valid map valid.
  pub replace_device-IsValid :
      (m m' : DevMap string_map) (e : Entry)
      → IsValid string_map m
      → IsFree m e.name e.id
      → replace_device string_map m e ≡ done m'
      → IsValid string_map m'
  unfolding replace_device load
  replace_device-IsValid m m' e v free h = elim (Option-cases (id_of string_map m e.id)) [
    | inl new ↦
        let new_name : name_of string_map m e.name ≡ none = elim free [
          | inl n ↦ n
          | inr s ↦ let (p, c, at, i, n) = v.by_name e.name e.id s in ground (arith, new, at)
        ] in
        add_locked-IsValid string_map m m' e v new new_name (ground (arith, new, h))
    | inr (p, found) ↦
        let (c, (at, i, r, n, has)) = v.by_id e.id p found in
        elim (Outcome-cases (update_in_place c.entry e)) [
          | inr (bug, u) ↦ ground (arith, found, at, u, h)
          | inl (o, u) ↦ elim (Option-cases o) [
            | inr (e', w) ↦
                let kept = update_in_place-IsUpdated c.entry e e' has (ground (arith, u, w)) in
                let same : record m {
                  cell = write string_map m.cell p (some (record c { entry = e' }));
                }
                    ≡ m' =
                  ground (arith, found, at, u, w, h) in
                subst (IsValid string_map) same (
                  rewritten-IsValid string_map m p c (record c { entry = e' }) v at kept.0 kept.1
                    (λ k. k) (λ k. (k.0, kept.6 ∙ k.1)))
            | inl w ↦
                let (m₁, k, (valid, gone, others, names)) =
                  remove_locked-IsRemoved string_map m e.id p v found in
                add_locked-IsValid string_map m₁ m' e valid gone (names e.name free)
                  (ground (arith, found, at, u, w, k, h))
          ]
        ]
  ]

  -- a list for `edgex_devmap_populate_devices` in which every new name comes with a new id
  abbrev pub IsNew : DevMap string_map → List Entry → Type 0
  IsNew m [] = Unit
  IsNew m (e ∷ es) =
      (m₁ : DevMap string_map) × (populate_one string_map m e ≡ done m₁)
      × ((name_of string_map m e.name ≢ none) ⊎ (id_of string_map m e.id ≡ none))
      × IsNew m₁ es

  populate_one-IsValid :
      (m m' : DevMap string_map) (e : Entry)
      → IsValid string_map m
      → (name_of string_map m e.name ≢ none) ⊎ (id_of string_map m e.id ≡ none)
      → populate_one string_map m e ≡ done m'
      → IsValid string_map m'
  unfolding populate_one
  populate_one-IsValid m m' e v free h = elim (Option-cases (name_of string_map m e.name)) [
    | inr (id, known) ↦ subst (IsValid string_map) (ground (arith, known, h)) v
    | inl new ↦
        let new_id : id_of string_map m e.id ≡ none = elim free [
          | inl k ↦ absurd (k new)
          | inr k ↦ k
        ] in
        add_locked-IsValid string_map m m' e v new_id new (ground (arith, new, h))
  ]

  pub populate_devices-IsValid :
      (m m' : DevMap string_map) (es : List Entry)
      → IsValid string_map m
      → IsNew m es
      → populate_devices string_map m es ≡ done m'
      → IsValid string_map m'
  unfolding populate_devices
  populate_devices-IsValid m m' [] v free h = subst (IsValid string_map) (ground (arith, h)) v
  populate_devices-IsValid m m' (e ∷ es) v (m₁, k, free, more) h =
      populate_devices-IsValid m₁ m' es (populate_one-IsValid m m₁ e v free k) more
        (ground (arith, k, h))

  -- what a lookup that finds a device at `p` does
  abbrev pub IsHeld : DevMap string_map → ℕ → Cell → DevMap string_map → Type 0
  IsHeld m p c m' =
      (m.cell p ≡ some c)
      × (m' ≡ record m { cell = write string_map m.cell p (some (record c { refs = c.refs + 1 })) })
      × IsValid string_map m'

  pub hold-IsHeld :
      (m : DevMap string_map) (p : ℕ) (c : Cell)
      → IsValid string_map m
      → m.cell p ≡ some c
      → (m' : DevMap string_map) × (hold string_map m p ≡ done m') × IsHeld m p c m'
  unfolding hold load
  hold-IsHeld m p c v at =
      let m' = record m {
        cell = write string_map m.cell p (some (record c { refs = c.refs + 1 }));
      } in
      (
        m',
        ground (arith, at),
        (
          at,
          refl,
          rewritten-IsValid string_map m p c (record c { refs = c.refs + 1 }) v at refl refl
              (λ k. omega arith) (λ k. k),
        ),
      )

  -- In a valid map, a lookup by name finds nothing where no device has the name, and else the device of
  -- that name, whose count it raises; it never meets a bad pointer, and leaves the map valid.
  pub device_byname_cases :
      (m : DevMap string_map) (name : Bytes)
      → IsValid string_map m
      → ((name_of string_map m name ≡ none) × (device_byname string_map m name ≡ done (none, m)))
        ⊎ ((p : ℕ) × (c : Cell) × (m' : DevMap string_map) × (device_byname string_map m name
              ≡ done (some p, m'))
            × (c.entry.name ≡ name)
            × (id_of string_map m c.entry.id ≡ some p)
            × IsHeld m p c m')
  unfolding device_byname
  device_byname_cases m name v = elim (Option-cases (name_of string_map m name)) [
    | inl n ↦ inl (n, ground (arith, n))
    | inr (id, s) ↦
        let (p, c, at, i, n) = v.by_name name id s in
        let (d, (j, same_id, r, back, has)) = v.by_id id p at in
        let own : c.entry.id ≡ id = ground (arith, i, j, same_id) in
        let (m', k, held) = hold-IsHeld m p c v i in
        inr (p, c, m', ground (arith, s, at, k), n, rw own at, held)
  ]
