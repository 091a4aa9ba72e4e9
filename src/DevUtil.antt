-- ===== src/DevUtil.antt =====
-- device-sdk-c/src/c/devutil.c: the comparison of lists of named things, whatever their order. The
-- macro LIST_EQUAL_FUNCTION is a section over the name field and the comparison.
pub mod Orders
mod Tests
use device_service_zigbee.Prelude.{
  Bool, true, false, ◌&&◌, Option, none, some, List, [], ◌∷◌, Bytes, length, ◌==◌, str_eq,
  if◌then◌else◌,
}
use device_service_zigbee.Transform.{NvPairs}

module _ {ℓ} {A : Type ℓ} (name : A → Bytes) (cmp : A → A → Bool) where
  -- the inner loop
  pub find_named : Bytes → List A → Option A
  find_named n [] = none
  find_named n (x ∷ xs) = let rest = find_named n xs in if str_eq n (name x) then some x else rest

  -- the outer loop
  pub all_found : List A → List A → Bool
  all_found [] l₂ = true
  all_found (x ∷ l₁) l₂ = elim (find_named (name x) l₂) [
    | none ↦ false
    | some y ↦ if cmp x y then all_found l₁ l₂ else false
  ]

  pub list_equal : List A → List A → Bool
  unfolding find_named all_found
  list_equal l₁ l₂ = if length l₁ == length l₂ then all_found l₁ l₂ else false

-- `pair_equal`
pub pair_equal : Bytes × Bytes → Bytes × Bytes → Bool
pair_equal p q = str_eq p.1 q.1

-- `edgex_nvpairs_equal`
pub nvpairs_equal : NvPairs → NvPairs → Bool
unfolding list_equal
nvpairs_equal = list_equal (λ (p : Bytes × Bytes). p.0) pair_equal

-- `edgex_protocols`
pub record Protocol : Type 0 where
  pub name : Bytes
  pub properties : NvPairs

-- `edgex_protocols_equal`, with `protocol_equal`
pub protocols_equal : List Protocol → List Protocol → Bool
unfolding list_equal nvpairs_equal
protocols_equal =
    list_equal (λ (p : Protocol). p.name)
      (λ (p q : Protocol). nvpairs_equal p.properties q.properties)

-- `edgex_device_autoevents`, without the run that it may have
pub record AutoEvents : Type 0 where
  pub resource : Bytes
  pub frequency : Bytes
  pub on_change : Bool

abbrev same_change : Bool → Bool → Bool
same_change true b = b
same_change false true = false
same_change false false = true

-- `autoevent_equal`
pub autoevent_equal : AutoEvents → AutoEvents → Bool
autoevent_equal e₁ e₂ = str_eq e₁.frequency e₂.frequency && same_change e₁.on_change e₂.on_change

-- `edgex_device_autoevents_equal`
pub autoevents_equal : List AutoEvents → List AutoEvents → Bool
unfolding list_equal
autoevents_equal = list_equal (λ (e : AutoEvents). e.resource) autoevent_equal
