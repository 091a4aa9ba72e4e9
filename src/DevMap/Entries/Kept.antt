-- ===== src/DevMap/Entries/Kept.antt =====
-- What copies and updates of devices keep, and when a device can be copied.
use device_service_zigbee.Prelude.{
  ◌≡◌, refl, sym, ap, Option, none, some, List, [], ◌∷◌, Bytes, All, arith, ◌&&◌, str_eq,
  str_eq_iff, Bool-cases, Option-cases, inl, inr, if◌then◌else◌,
}
use mathlib.Core.List.{reverse}
use device_service_zigbee.Prelude.Outcome.{done, >>=-eq-done}
use device_service_zigbee.Command.{DeviceResource, DeviceProfile}
use device_service_zigbee.DevUtil.{autoevents_equal, protocols_equal}
use device_service_zigbee.DevMap.Entries.{
  Entry, there, resources_dup, profile_dup, device_dup, update_in_place,
}

abbrev pub HasProfile : Entry → Type 0
HasProfile e = (p : DeviceProfile) × (e.profile ≡ some p)

-- the fields that a copy keeps, and the protocols back to front
abbrev pub IsCopy : Entry → Entry → Type 0
IsCopy d e =
    (d.id ≡ e.id)
    × (d.name ≡ e.name)
    × (d.admin_state ≡ e.admin_state)
    × (d.operating_state ≡ e.operating_state)
    × (d.details ≡ e.details)
    × (d.autos ≡ e.autos)
    × (d.protocols ≡ reverse e.protocols)

-- A device can be copied into the map if it has a profile in which every resource has an assertion.
abbrev pub IsAsserted : DeviceResource → Type 0
IsAsserted r = (s : Bytes) × (r.value.assertion ≡ some s)

abbrev pub IsCopied : Entry → Type 0
IsCopied e = (p : DeviceProfile) × (e.profile ≡ some p) × All IsAsserted p.device_resources

pub device_dup-IsCopy : (e d : Entry) → device_dup e ≡ done d → IsCopy d e
unfolding device_dup
device_dup-IsCopy e d h =
    let (prof, k, k') = >>=-eq-done (profile_dup e.profile) _ h in
    let same : record e { protocols = reverse e.protocols; profile = prof } ≡ d =
      ground (arith, k') in
    (
      ap (λ (x : Entry). x.id) (sym same),
      ap (λ (x : Entry). x.name) (sym same),
      ap (λ (x : Entry). x.admin_state) (sym same),
      ap (λ (x : Entry). x.operating_state) (sym same),
      ap (λ (x : Entry). x.details) (sym same),
      ap (λ (x : Entry). x.autos) (sym same),
      ap (λ (x : Entry). x.protocols) (sym same),
    )

resources_dup_same : (rs : List DeviceResource) → All IsAsserted rs → resources_dup rs ≡ done rs
unfolding resources_dup
resources_dup_same [] h = refl
resources_dup_same (r ∷ rs) h =
    let kept : there r.value.assertion ≡ done h.0.0 = rw h.0.1 refl in
    ground (arith, kept, h.0.1, resources_dup_same rs h.1)

-- the copied profile has no table
pub device_dup-IsCopied :
    (e : Entry)
    → (c : IsCopied e)
    → device_dup e
      ≡ done (record e {
        protocols = reverse e.protocols;
        profile = some (record c.0 { cmdinfo = [] });
      })
unfolding device_dup profile_dup
device_dup-IsCopied e (p, has, h) = rw (has, resources_dup_same p.device_resources h) refl

-- an update in place keeps who the device is
abbrev pub IsUpdated : Entry → Entry → Entry → Type 0
IsUpdated dest src e =
    (e.id ≡ dest.id)
    × (e.name ≡ dest.name)
    × (e.name ≡ src.name)
    × (e.admin_state ≡ src.admin_state)
    × (e.operating_state ≡ src.operating_state)
    × (e.details ≡ src.details)
    × (e.profile ≡ dest.profile)

pub update_in_place-IsUpdated :
    (dest src e : Entry)
    → HasProfile dest
    → update_in_place dest src ≡ done (some e)
    → IsUpdated dest src e
unfolding update_in_place
update_in_place-IsUpdated dest src e (p, has) h =
    let names = str_eq_iff dest.name src.name in
    elim (Bool-cases (str_eq dest.name src.name)) [
      | inr n ↦ ground (arith, n, h)
      | inl t ↦ elim (Option-cases src.profile) [
        | inl l ↦ ground (arith, t, has, l, h)
        | inr (q, has') ↦
            elim (Bool-cases (
              str_eq p.name q.name
              && (autoevents_equal dest.autos src.autos
                  && protocols_equal dest.protocols src.protocols))) [
                    | inr n ↦ ground (arith, t, n, has, has', h)
                    | inl u ↦ (
                      ground (arith, t, u, has, has', h),
                      ground (arith, t, u, has, has', h),
                      ground (arith, t, u, has, has', h, names),
                      ground (arith, t, u, has, has', h),
                      ground (arith, t, u, has, has', h),
                      ground (arith, t, u, has, has', h),
                      ground (arith, t, u, has, has', h),
                    )
                  ]
      ]
    ]

pub update_in_place_runs :
    (dest src : Entry)
    → HasProfile dest
    → HasProfile src
    → (o : Option Entry) × (update_in_place dest src ≡ done o)
unfolding update_in_place
update_in_place_runs dest src (p, has) (q, has') = elim (Bool-cases (str_eq dest.name src.name)) [
  | inr n ↦ (none, ground (arith, n))
  | inl t ↦ (
    (if str_eq p.name q.name
          && (autoevents_equal dest.autos src.autos && protocols_equal dest.protocols src.protocols)
        then some (record dest {
          admin_state = src.admin_state;
          operating_state = src.operating_state;
          details = src.details;
        })
        else none),
    ground (arith, t, has, has'),
  )
]
