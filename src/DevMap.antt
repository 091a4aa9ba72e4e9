-- ===== src/DevMap.antt =====
-- device-sdk-c/src/c/devmap.c: the devices of the service by id and by name, with their counts of
-- references. Devices live on an explicit heap. The locks are left out: a locked call is one step;
-- so are the descriptions that a log prints. The string maps of map.c are an interface.
pub mod Maps
pub mod Entries
pub mod Added
pub mod Validity
pub mod Removal
pub mod Steps
pub mod Queued
pub mod Reach
pub mod Stored
pub mod Lists
mod Tests
use device_service_zigbee.Prelude.{
  ℕ, ◌+◌, ◌-◌, Bool, true, false, ◌&&◌, Option, none, some, List, [], ◌∷◌, Bytes, str_eq, ◌==◌,
  if◌then◌else◌,
}
use mathlib.Core.List.{reverse}
use device_service_zigbee.Prelude.Outcome.{Outcome, done, fault, bad_pointer, ◌>>=◌}
use device_service_zigbee.Command.{DeviceResource, DeviceProfile, CmdInfo, find_command}
use device_service_zigbee.Command.Run.{AdminState, OperatingState, in_service}
use device_service_zigbee.DevUtil.{Protocol, protocols_equal, AutoEvents, autoevents_equal}
use device_service_zigbee.DevMap.Maps.{StringMap}
use device_service_zigbee.DevMap.Entries.{
  Details, Entry, Cell, AutoCall, started, stopped, there, resources_dup, profile_dup, device_dup,
  update_in_place,
}

module _ (string_map : (V : Type 0) → StringMap V) where
  -- `edgex_devmap_t`, with the heap and the calls that it made, the last one first
  pub record DevMap : Type 0 where
    pub cell : ℕ → Option Cell
    pub fresh : ℕ
    pub devices : (string_map ℕ).Map
    pub name_to_id : (string_map Bytes).Map
    pub profiles : (string_map DeviceProfile).Map
    pub calls : List AutoCall

  abbrev pub id_of : DevMap → Bytes → Option ℕ
  id_of m id = (string_map ℕ).get m.devices id

  abbrev pub name_of : DevMap → Bytes → Option Bytes
  name_of m name = (string_map Bytes).get m.name_to_id name

  -- a store to the heap; `none` frees the cell
  abbrev pub write : (ℕ → Option Cell) → ℕ → Option Cell → ℕ → Option Cell
  write cell p c q = if p == q then c else cell q

  load : DevMap → ℕ → Outcome Cell
  load m p = elim (m.cell p) [ none ↦ fault bad_pointer | some c ↦ done c ]

  -- `edgex_devmap_alloc`
  pub dev_map : DevMap
  dev_map = record {
    cell = λ p. none;
    fresh = 0;
    devices = (string_map ℕ).empty;
    name_to_id = (string_map Bytes).empty;
    profiles = (string_map DeviceProfile).empty;
    calls = [];
  }

  -- the profile of a new device: the one of its name that is there
  pub with_profile : DevMap → DeviceProfile → DeviceProfile × DevMap
  with_profile m p = elim ((string_map DeviceProfile).get m.profiles p.name) [
    | some q ↦ (q, m)
    | none ↦ (p, record m { profiles = (string_map DeviceProfile).set m.profiles p.name p })
  ]

  -- behind the profile
  pub add_entry : DevMap → Entry → DevMap
  add_entry m e = record m {
    cell = write m.cell m.fresh (some (record { entry = e; refs = 1 }));
    fresh = m.fresh + 1;
    devices = (string_map ℕ).set m.devices e.id m.fresh;
    name_to_id = (string_map Bytes).set m.name_to_id e.name e.id;
    calls = started m.fresh ∷ m.calls;
  }

  -- `add_locked`
  pub add_locked : DevMap → Entry → Outcome DevMap
  unfolding device_dup with_profile add_entry
  add_locked m e = do
    dup ← device_dup e
    p ← there dup.profile
    let (q, m') = with_profile m p
    done (add_entry m' (record dup { profile = some q }))

  -- `edgex_device_release`
  pub release : DevMap → ℕ → Outcome DevMap
  unfolding load
  release m p = do
    c ← load m p
    done (
        if c.refs == 1
        then record m { cell = write m.cell p none; calls = stopped p ∷ m.calls }
        else record m { cell = write m.cell p (some (record c { refs = c.refs - 1 })) })

  -- `remove_locked`
  pub remove_locked : DevMap → ℕ → Outcome DevMap
  unfolding load release
  remove_locked m p = do
    c ← load m p
    release
        (record m {
          name_to_id = (string_map Bytes).remove m.name_to_id c.entry.name;
          devices = (string_map ℕ).remove m.devices c.entry.id;
        })
        p

  -- a round of the loop of `edgex_devmap_populate_devices`
  pub populate_one : DevMap → Entry → Outcome DevMap
  unfolding add_locked
  populate_one m e = elim (name_of m e.name) [ none ↦ add_locked m e | some id ↦ done m ]

  -- `edgex_devmap_populate_devices`
  pub populate_devices : DevMap → List Entry → Outcome DevMap
  unfolding populate_one
  populate_devices m [] = done m
  populate_devices m (e ∷ es) = do m' ← populate_one m e; populate_devices m' es

  -- `edgex_devmap_replace_device`
  pub replace_device : DevMap → Entry → Outcome DevMap
  unfolding load add_locked remove_locked update_in_place
  replace_device m e = elim (id_of m e.id) [
    | none ↦ add_locked m e
    | some p ↦ do
      c ← load m p
      updated ← update_in_place c.entry e
      elim updated [
        | some e' ↦ done (record m { cell = write m.cell p (some (record c { entry = e' })) })
        | none ↦ do m' ← remove_locked m p; add_locked m' e
      ]
  ]

  -- `atomic_fetch_add (&result->refs, 1)`
  pub hold : DevMap → ℕ → Outcome DevMap
  unfolding load
  hold m p = do
    c ← load m p
    done (record m { cell = write m.cell p (some (record c { refs = c.refs + 1 })) })

  -- `edgex_devmap_device_byid`
  pub device_byid : DevMap → Bytes → Outcome (Option ℕ × DevMap)
  unfolding hold
  device_byid m id = elim (id_of m id) [
    | none ↦ done (none, m)
    | some p ↦ do m' ← hold m p; done (some p, m')
  ]

  -- `edgex_devmap_device_byname`
  pub device_byname : DevMap → Bytes → Outcome (Option ℕ × DevMap)
  unfolding hold
  device_byname m name = elim (name_of m name) [
    | none ↦ done (none, m)
    | some id ↦ do p ← there (id_of m id); m' ← hold m p; done (some p, m')
  ]

  -- `edgex_devmap_removedevice_byname`
  pub removedevice_byname : DevMap → Bytes → Outcome DevMap
  unfolding remove_locked
  removedevice_byname m name = elim (name_of m name) [
    | none ↦ done m
    | some id ↦ do p ← there (id_of m id); remove_locked m p
  ]

  -- `edgex_devmap_removedevice_byid`
  pub removedevice_byid : DevMap → Bytes → Outcome DevMap
  unfolding remove_locked
  removedevice_byid m id = do p ← there (id_of m id); remove_locked m p

  -- `edgex_devmap_add_profile`
  pub add_profile : DevMap → DeviceProfile → DevMap
  add_profile m p = record m { profiles = (string_map DeviceProfile).set m.profiles p.name p }

  -- what `edgex_deviceprofile_findcommand` stores in the profile: a device that shares the profile makes
  -- the same table for itself
  pub with_table : DevMap → ℕ → Cell → DeviceProfile → DevMap
  with_table m p c prof = record m {
    cell = write m.cell p (some (record c { entry = record c.entry { profile = some prof } }));
  }

  -- the devices that the loop of `edgex_devmap_device_forcmd` puts into its queue, the last one first
  pub queue_for :
      DevMap → Bytes → Bool → List ℕ → List (ℕ × CmdInfo) → Outcome (List (ℕ × CmdInfo) × DevMap)
  unfolding load hold with_table
  queue_for m cmd for_get [] q = done (q, m)
  queue_for m cmd for_get (p ∷ ps) q = do
    c ← load m p
    let e = c.entry
    elim (in_service e.admin_state e.operating_state) [
      | false ↦ queue_for m cmd for_get ps q
      | true ↦ do
        prof ← there e.profile
        (info, prof') ← find_command cmd prof for_get
        let m₁ = with_table m p c prof'
        elim info [
          | none ↦ queue_for m₁ cmd for_get ps q
          | some i ↦ do m₂ ← hold m₁ p; queue_for m₂ cmd for_get ps ((p, i) ∷ q)
        ]
    ]

  -- `edgex_devmap_device_forcmd`
  pub device_forcmd : DevMap → Bytes → Bool → Outcome (List (ℕ × CmdInfo) × DevMap)
  unfolding queue_for
  device_forcmd m cmd for_get = queue_for m cmd for_get ((string_map ℕ).values m.devices) []
