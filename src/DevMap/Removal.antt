-- ===== src/DevMap/Removal.antt =====
-- What `remove_locked` leaves of the map of devices.
use device_service_zigbee.Prelude.{
  ℕ, ◌-◌, ◌≡◌, ◌≢◌, ◌⊎◌, sym, ◌∙◌, Option, none, some, List, ◌∷◌, Bytes, arith, ◌==◌, same_text,
  Bool-cases, inl, inr,
}
use mathlib.Core.Path.{subst}
use device_service_zigbee.Prelude.Outcome.{done}
use device_service_zigbee.DevMap.Maps.{StringMap}
use device_service_zigbee.DevMap.Entries.{Entry, Cell, AutoCall, stopped}
use device_service_zigbee.DevMap.{DevMap, id_of, name_of, write, load, release, remove_locked}
use device_service_zigbee.DevMap.Validity.{IsValid}

module _ (string_map : (V : Type 0) → StringMap V) where
  -- the map without a device, whatever happens to its cell
  abbrev without : DevMap string_map → ℕ → Entry → Option Cell → List AutoCall → DevMap string_map
  without m p e o calls = record m {
    cell = write string_map m.cell p o;
    devices = (string_map ℕ).remove m.devices e.id;
    name_to_id = (string_map Bytes).remove m.name_to_id e.name;
    calls = calls;
  }

  without-IsValid :
      (m : DevMap string_map) (p : ℕ) (c : Cell) (o : Option Cell) (calls : List AutoCall)
      → IsValid string_map m
      → id_of string_map m c.entry.id ≡ some p
      → m.cell p ≡ some c
      → IsValid string_map (without m p c.entry o calls)
  without-IsValid m p c o calls v here at = record {
    unused = λ q h. ground (arith, h, at, v.unused q h, v.unused p);
    by_id = λ id q h. elim (same_text id c.entry.id) [
      | inl same ↦ ground (arith, h, same, (string_map ℕ).get-remove_self m.devices c.entry.id)
      | inr other ↦
          let (d, (at', i, r, n, has)) =
            v.by_id id q (sym ((string_map ℕ).get-remove_ne m.devices id c.entry.id other) ∙ h) in
          let apart : p ≢ q = λ k. other (ground (arith, k, at, at', i)) in
          let (d', (at'', i'', r'', n'', has'')) = v.by_id c.entry.id p here in
          let other_name : d.entry.name ≢ c.entry.name =
            λ k. other (ground (arith, k, n, n'', at, at'')) in
          (
            d,
            (
              ground (arith, apart, at'),
              i,
              r,
              (string_map Bytes).get-remove_ne m.name_to_id d.entry.name c.entry.name other_name
                  ∙ n,
              has,
            ),
          )
    ];
    by_name = λ name id h. elim (same_text name c.entry.name) [
      | inl same ↦
          ground (arith, h, same, (string_map Bytes).get-remove_self m.name_to_id c.entry.name)
      | inr other ↦
          let (q, d, at', i, n) =
            v.by_name name id
              (sym ((string_map Bytes).get-remove_ne m.name_to_id name c.entry.name other) ∙ h) in
          let apart : p ≢ q = λ k. other (ground (arith, k, at, i, n)) in
          let other_id : id ≢ c.entry.id = λ k. apart (ground (arith, k, here, at')) in
          (
            q,
            d,
            (string_map ℕ).get-remove_ne m.devices id c.entry.id other_id ∙ at',
            ground (arith, apart, i),
            n,
          )
    ];
  }

  -- what `remove_locked` leaves of a device that is there
  abbrev pub IsRemoved : DevMap string_map → Bytes → DevMap string_map → Type 0
  IsRemoved m id m' =
      IsValid string_map m'
      × (id_of string_map m' id ≡ none)
      × ((j : Bytes) → j ≢ id → id_of string_map m' j ≡ id_of string_map m j)
      × ((name : Bytes)
          → (name_of string_map m name ≡ none) ⊎ (name_of string_map m name ≡ some id)
          → name_of string_map m' name ≡ none)

  without-IsRemoved :
      (m : DevMap string_map) (p : ℕ) (c : Cell) (o : Option Cell) (calls : List AutoCall)
      → IsValid string_map m
      → id_of string_map m c.entry.id ≡ some p
      → m.cell p ≡ some c
      → IsRemoved m c.entry.id (without m p c.entry o calls)
  without-IsRemoved m p c o calls v here at = (
    without-IsValid m p c o calls v here at,
    (string_map ℕ).get-remove_self m.devices c.entry.id,
    λ j other. (string_map ℕ).get-remove_ne m.devices j c.entry.id other,
    λ name free. elim (same_text name c.entry.name) [
      | inl same ↦ rw same ((string_map Bytes).get-remove_self m.name_to_id c.entry.name)
      | inr other ↦
          let kept = (string_map Bytes).get-remove_ne m.name_to_id name c.entry.name other in
          elim free [
            | inl n ↦ kept ∙ n
            | inr s ↦
                let (q, d, at', i, n) = v.by_name name c.entry.id s in
                absurd (other (ground (arith, here, at', at, i, n)))
          ]
    ],
  )

  pub remove_locked-IsRemoved :
      (m : DevMap string_map) (id : Bytes) (p : ℕ)
      → IsValid string_map m
      → id_of string_map m id ≡ some p
      → (m' : DevMap string_map) × (remove_locked string_map m p ≡ done m') × IsRemoved m id m'
  unfolding remove_locked release load
  remove_locked-IsRemoved m id p v here =
      let (c, (at, i, r, n, has)) = v.by_id id p here in
      let there : id_of string_map m c.entry.id ≡ some p = rw i here in
      let done_with : (o : Option Cell) (calls : List AutoCall)
          → IsRemoved m id (without m p c.entry o calls) =
        λ o calls.
          subst (λ j. IsRemoved m j (without m p c.entry o calls)) i
            (without-IsRemoved m p c o calls v there at) in
      elim (Bool-cases (c.refs == 1)) [
        | inl one ↦ (
          without m p c.entry none (stopped p ∷ m.calls),
          ground (arith, at, one),
          done_with none (stopped p ∷ m.calls),
        )
        | inr more ↦
            let left = some (record c { refs = c.refs - 1 }) in
            (without m p c.entry left m.calls, ground (arith, at, more), done_with left m.calls)
      ]
