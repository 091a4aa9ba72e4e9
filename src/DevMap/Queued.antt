-- ===== src/DevMap/Queued.antt =====
-- `edgex_devmap_device_forcmd`: the devices that it puts into its queue.
use device_service_zigbee.Prelude.{
  ℕ, ◌≡◌, refl, Bool, some, List, [], ◌∷◌, Bytes, arith, Bool-cases, Option-cases, inl, inr,
}
use mathlib.Core.Path.{subst}
use device_service_zigbee.Prelude.Outcome.{done, Outcome-cases}
use device_service_zigbee.Command.{CmdInfo, DeviceProfile, find_command}
use device_service_zigbee.Command.Run.{in_service}
use device_service_zigbee.DevMap.Maps.{StringMap}
use device_service_zigbee.DevMap.Entries.{Cell}
use device_service_zigbee.DevMap.{DevMap, load, with_table, queue_for, device_forcmd}
use device_service_zigbee.DevMap.Validity.{IsValid, rewritten-IsValid}
use device_service_zigbee.DevMap.Steps.{hold-IsHeld}

module _ (string_map : (V : Type 0) → StringMap V) where
  with_table-IsValid :
      (m : DevMap string_map) (p : ℕ) (c : Cell) (prof : DeviceProfile)
      → IsValid string_map m
      → m.cell p ≡ some c
      → IsValid string_map (with_table string_map m p c prof)
  unfolding with_table
  with_table-IsValid m p c prof v at =
      rewritten-IsValid string_map m p c
        (record c { entry = record c.entry { profile = some prof } }) v at refl refl (λ k. k)
        (λ k. (prof, refl))

  with_table_at :
      (m : DevMap string_map) (p : ℕ) (c : Cell) (prof : DeviceProfile)
      → (d : Cell) × ((with_table string_map m p c prof).cell p ≡ some d)
  unfolding with_table
  with_table_at m p c prof =
      (record c { entry = record c.entry { profile = some prof } }, ground arith)

  queue_for-IsValid :
      (m m' : DevMap string_map) (cmd : Bytes) (g : Bool) (ps : List ℕ) (q q' : List (ℕ × CmdInfo))
      → IsValid string_map m
      → queue_for string_map m cmd g ps q ≡ done (q', m')
      → IsValid string_map m'
  unfolding queue_for load
  queue_for-IsValid m m' cmd g [] q q' v h = subst (IsValid string_map) (ground (arith, h)) v
  queue_for-IsValid m m' cmd g (p ∷ ps) q q' v h = elim (Option-cases (m.cell p)) [
    | inl n ↦ ground (arith, n, h)
    | inr (c, at) ↦ elim (Bool-cases (in_service c.entry.admin_state c.entry.operating_state)) [
      | inr out ↦ queue_for-IsValid m m' cmd g ps q q' v (ground (arith, at, out, h))
      | inl on ↦ elim (Option-cases c.entry.profile) [
        | inl n ↦ ground (arith, at, on, n, h)
        | inr (prof, s) ↦ elim (Outcome-cases (find_command cmd prof g)) [
          | inr (bug, f) ↦ ground (arith, at, on, s, f, h)
          | inl ((info, prof'), f) ↦
              let w = with_table-IsValid m p c prof' v at in
              let m₁ = with_table string_map m p c prof' in
              elim (Option-cases info) [
                | inl n ↦
                    queue_for-IsValid m₁ m' cmd g ps q q' w (ground (arith, at, on, s, f, n, h))
                | inr (i, found) ↦
                    let (d, at') = with_table_at m p c prof' in
                    let (m₂, k, held) = hold-IsHeld string_map m₁ p d w at' in
                    queue_for-IsValid m₂ m' cmd g ps ((p, i) ∷ q) q' held.2
                      (ground (arith, at, on, s, f, found, k, h))
              ]
        ]
      ]
    ]
  ]

  pub device_forcmd-IsValid :
      (m m' : DevMap string_map) (cmd : Bytes) (g : Bool) (q : List (ℕ × CmdInfo))
      → IsValid string_map m
      → device_forcmd string_map m cmd g ≡ done (q, m')
      → IsValid string_map m'
  unfolding device_forcmd
  device_forcmd-IsValid m m' cmd g q v h =
      queue_for-IsValid m m' cmd g ((string_map ℕ).values m.devices) [] q v h
