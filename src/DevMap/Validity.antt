-- ===== src/DevMap/Validity.antt =====
-- The two indexes of the map of devices agree, and every device in them is there and counted.
use device_service_zigbee.Prelude.{
  ℕ, ◌≤◌, ◌≡◌, ◌≢◌, refl, sym, ap, ◌∙◌, none, some, Bytes, arith, ◌==◌, same_text, Bool-cases, inl,
  inr,
}
use mathlib.Core.Path.{subst}
use device_service_zigbee.DevMap.Maps.{StringMap}
use device_service_zigbee.DevMap.Entries.{Entry, Cell}
use device_service_zigbee.DevMap.Entries.Kept.{HasProfile}
use device_service_zigbee.DevMap.Added.{add_locked-IsAdded}
use device_service_zigbee.Prelude.Outcome.{done}
use device_service_zigbee.DevMap.{DevMap, id_of, name_of, write, dev_map, add_entry, add_locked}

module _ (string_map : (V : Type 0) → StringMap V) where
  -- the device of an id: at `p`, in `c`, with a profile, and found by its name as well
  abbrev pub IsAt : DevMap string_map → Bytes → ℕ → Cell → Type 0
  IsAt m id p c =
      (m.cell p ≡ some c)
      × (c.entry.id ≡ id)
      × (1 ≤ c.refs)
      × (name_of string_map m c.entry.name ≡ some id)
      × HasProfile c.entry

  pub record IsValid (m : DevMap string_map) : Type 0 where
    pub unused : (p : ℕ) → m.fresh ≤ p → m.cell p ≡ none
    pub by_id : (id : Bytes) (p : ℕ) → id_of string_map m id ≡ some p → (c : Cell) × IsAt m id p c
    pub by_name :
        (name id : Bytes)
        → name_of string_map m name ≡ some id
        → (p : ℕ) × (c : Cell) × (id_of string_map m id ≡ some p)
          × (m.cell p ≡ some c)
          × (c.entry.name ≡ name)

  pub dev_map-IsValid : IsValid (dev_map string_map)
  unfolding dev_map
  dev_map-IsValid = record {
    unused = λ p h. refl;
    by_id = λ id p h. ground (arith, h, (string_map ℕ).get-empty id);
    by_name = λ name id h. ground (arith, h, (string_map Bytes).get-empty name);
  }

  add_entry-IsValid :
      (m : DevMap string_map) (e : Entry)
      → HasProfile e
      → IsValid m
      → id_of string_map m e.id ≡ none
      → name_of string_map m e.name ≡ none
      → IsValid (add_entry string_map m e)
  unfolding add_entry
  add_entry-IsValid m e own v new_id new_name = record {
    unused = λ p h. ground (arith, v.unused p (omega arith));
    by_id = λ id p h. elim (same_text id e.id) [
      | inl same ↦
          let set_self = (string_map ℕ).get-set_self m.devices e.id m.fresh in
          let at_fresh : p ≡ m.fresh = ground (arith, h, same, set_self) in
          (
            record { entry = e; refs = 1 },
            (
              ground (arith, at_fresh),
              sym same,
              omega arith,
              (string_map Bytes).get-set_self m.name_to_id e.name e.id ∙ ap some (sym same),
              own,
            ),
          )
      | inr other ↦
          let (c, (at, i, r, n, has)) =
            v.by_id id p (sym ((string_map ℕ).get-set_ne m.devices id e.id m.fresh other) ∙ h) in
          let other_name : c.entry.name ≢ e.name = λ k. ground (arith, new_name, n, k) in
          (
            c,
            (
              ground (arith, at, v.unused m.fresh (omega arith)),
              i,
              r,
              (string_map Bytes).get-set_ne m.name_to_id c.entry.name e.name e.id other_name ∙ n,
              has,
            ),
          )
    ];
    by_name = λ name id h. elim (same_text name e.name) [
      | inl same ↦
          let set_self = (string_map Bytes).get-set_self m.name_to_id e.name e.id in
          let at_id : id ≡ e.id = ground (arith, h, same, set_self) in
          (
            m.fresh,
            record { entry = e; refs = 1 },
            rw at_id ((string_map ℕ).get-set_self m.devices e.id m.fresh),
            ground arith,
            sym same,
          )
      | inr other ↦
          let (p, c, at, i, n) =
            v.by_name name id
              (sym ((string_map Bytes).get-set_ne m.name_to_id name e.name e.id other) ∙ h) in
          let other_id : id ≢ e.id = λ k. ground (arith, new_id, at, k) in
          (
            p,
            c,
            (string_map ℕ).get-set_ne m.devices id e.id m.fresh other_id ∙ at,
            ground (arith, i, v.unused m.fresh (omega arith)),
            n,
          )
    ];
  }

  -- A device with a new id and a new name is added.
  pub add_locked-IsValid :
      (m m' : DevMap string_map) (e : Entry)
      → IsValid m
      → id_of string_map m e.id ≡ none
      → name_of string_map m e.name ≡ none
      → add_locked string_map m e ≡ done m'
      → IsValid m'
  add_locked-IsValid m m' e v new_id new_name h =
      let (d, profiles, has, (same_id, same_name, adm, op, det, auto, prot), made) =
        add_locked-IsAdded string_map m m' e h in
      let m₁ = record m { profiles = profiles } in
      let v₁ : IsValid m₁ = record { unused = v.unused; by_id = v.by_id; by_name = v.by_name } in
      subst IsValid (sym made) (
        add_entry-IsValid m₁ d has v₁ (ap (id_of string_map m) same_id ∙ new_id)
          (ap (name_of string_map m) same_name ∙ new_name))

  -- the count of a device, or what an update in place may change, but not its name and id
  abbrev rewritten : DevMap string_map → ℕ → Cell → DevMap string_map
  rewritten m p d = record m { cell = write string_map m.cell p (some d) }

  pub rewritten-IsValid :
      (m : DevMap string_map) (p : ℕ) (c d : Cell)
      → IsValid m
      → m.cell p ≡ some c
      → d.entry.id ≡ c.entry.id
      → d.entry.name ≡ c.entry.name
      → (1 ≤ c.refs → 1 ≤ d.refs)
      → (HasProfile c.entry → HasProfile d.entry)
      → IsValid (rewritten m p d)
  rewritten-IsValid m p c d v at same_id same_name counted shaped = record {
    unused = λ q h. ground (arith, v.unused q h, at);
    by_id = λ id q h.
        let (e, (at', i, r, n, has)) = v.by_id id q h in
        elim (Bool-cases (p == q)) [
          | inl t ↦
              let one : e ≡ c = ground (arith, t, at, at') in
              (
                d,
                (
                  ground (arith, t),
                  ground (arith, same_id, i, one),
                  counted (subst (λ x. 1 ≤ x.refs) one r),
                  ground (arith, same_name, n, one),
                  shaped (subst (λ x. HasProfile x.entry) one has),
                ),
              )
          | inr f ↦ (e, (ground (arith, f, at'), i, r, n, has))
        ];
    by_name = λ name id h.
        let (q, e, here, at', n) = v.by_name name id h in
        elim (Bool-cases (p == q)) [
          | inl t ↦ (q, d, here, ground (arith, t), ground (arith, same_name, n, t, at, at'))
          | inr f ↦ (q, e, here, ground (arith, f, at'), n)
        ];
  }
