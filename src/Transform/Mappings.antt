-- ===== src/Transform/Mappings.antt =====
-- What transform.c leaves alone, and the string mappings of a profile.
use device_service_zigbee.Prelude.{
  ℕ, ◌^◌, ◌≤◌, ◌<◌, ◌≡◌, ◌≢◌, refl, sym, Bool, true, false, none, some, [], ◌∷◌, Bytes, All, arith,
  str_eq_iff, not-ltb,
}
use device_service_zigbee.Prelude.Int.{ℤ, pos}
use device_service_zigbee.Prelude.Outcome.{done, >>=-eq-done}
use device_service_zigbee.Value.{
  w64, PropertyType, uint, int, bool, string, binary, float32, float64, Value, string_result,
  uint_result,
}
use device_service_zigbee.Value.Equal.{CommandResult}
use device_service_zigbee.Transform.{
  PropertyValue, NvPairs, LongDouble, transforms_on, check_mapping, remap, overflow, get_int,
  set_int, int_out, transform_out_int, transform_in_int, transform_out_real, transform_in_real,
  out_value, outgoing, incoming, out_of_type, in_of_type,
}
use device_service_zigbee.Transform.Arith.{of_word, add64}

-- the first pair for `s` gives `t`
pub data First (s t : Bytes) : NvPairs → Type 0 where
  here : {n : Bytes} {map : NvPairs} → n ≡ s → First s t ((n, t) ∷ map)
  there : {n v : Bytes} {map : NvPairs} → n ≢ s → First s t map → First s t ((n, v) ∷ map)

check_mapping-First : {s t : Bytes} {map : NvPairs} → First s t map → check_mapping map s ≡ some t
unfolding check_mapping
check_mapping-First {s} (here {n = n} e) = ground (arith, (str_eq_iff s n).1 (sym e))
check_mapping-First {s} (there {n = n} e f) = ground (arith, str_eq_iff s n, check_mapping-First f)

check_mapping-none :
    (s : Bytes) (map : NvPairs) → All (λ p. p.0 ≢ s) map → check_mapping map s ≡ none
unfolding check_mapping
check_mapping-none s [] h = refl
check_mapping-none s ((n, v) ∷ map) h = ground (arith, str_eq_iff s n, check_mapping-none s map h.1)

-- what no transform touches
abbrev pub Untouched : PropertyType → Bool → NvPairs → Value → Type 0
Untouched bool on maps v = Unit
Untouched binary on maps v = Unit
Untouched string on maps v =
    (s : Bytes) × (v ≡ string_result s) × All (λ (p : Bytes × Bytes). p.0 ≢ s) maps
Untouched _ on maps v = on ≡ false

module _ (m : LongDouble) (r : CommandResult) (pv : PropertyValue) (maps : NvPairs) where
  -- A text that the mappings name is replaced by the value of its first pair, in both directions.
  pub mapped :
      (s t : Bytes)
      → pv.type ≡ string
      → r.value ≡ string_result s
      → First s t maps
      → (outgoing m r pv maps ≡ done (record r { value = string_result t }))
        × (incoming m r pv maps ≡ done (true, record r { value = string_result t }))
  unfolding outgoing incoming out_of_type in_of_type remap
  mapped s t e v f =
      (ground (arith, e, v, check_mapping-First f), ground (arith, e, v, check_mapping-First f))

  out-Untouched :
      (t : PropertyType)
      → Untouched t (transforms_on pv) maps r.value
      → (out_of_type m t pv maps r.value ≡ done r.value)
        × (in_of_type m t pv maps r.value ≡ done (true, r.value))
  unfolding out_of_type in_of_type remap transform_out_int transform_in_int transform_out_real
      transform_in_real
  out-Untouched bool h = (refl, refl)
  out-Untouched binary h = (refl, refl)
  out-Untouched string (s, e, h) = (
    ground (arith, e, check_mapping-none s maps h),
    ground (arith, e, check_mapping-none s maps h),
  )
  out-Untouched (uint w) h = (ground arith, ground arith)
  out-Untouched (int w) h = (ground arith, ground arith)
  out-Untouched float32 h = (ground arith, ground arith)
  out-Untouched float64 h = (ground arith, ground arith)

  -- A result is left as it is, and a setting accepted as it is, if its property is Boolean or binary,
  -- if it is a text that no mapping names, or if it is a number whose property enables no transform.
  pub untouched :
      Untouched pv.type (transforms_on pv) maps r.value
      → (outgoing m r pv maps ≡ done r) × (incoming m r pv maps ≡ done (true, r))
  unfolding outgoing incoming
  untouched h = let (a, b) = out-Untouched pv.type h in (ground (arith, a), ground (arith, b))

-- a profile that adds an offset and does nothing else
abbrev pub OffsetOnly : PropertyValue → ℤ → Type 0
OffsetOnly pv o =
    (pv.type ≡ uint w64)
    × (pv.mask.enabled ≡ false)
    × (pv.shift.enabled ≡ false)
    × (pv.base.enabled ≡ false)
    × (pv.scale.enabled ≡ false)
    × (pv.offset.enabled ≡ true)
    × (pv.offset.ival ≡ o)

-- A uint64_t reading from 2 ^ 63 on goes out as "overflow" even where the profile adds 0 to it.
pub outgoing_large :
    (m : LongDouble) (r : CommandResult) (pv : PropertyValue) (maps : NvPairs) (n : ℕ)
    → OffsetOnly pv (pos 0)
    → r.value ≡ uint_result w64 n
    → 2 ^ 63 ≤ n
    → n < 2 ^ 64
    → outgoing m r pv maps ≡ done (record r { value = overflow })
unfolding outgoing out_of_type transform_out_int get_int set_int int_out out_value of_word add64
outgoing_large m r pv maps n (t, a, b, c, d, e, f) v lo hi = ground (arith, not-ltb n (2 ^ 63) lo)

pub outgoing-origin :
    (m : LongDouble) (r s : CommandResult) (pv : PropertyValue) (maps : NvPairs)
    → outgoing m r pv maps ≡ done s
    → s.origin ≡ r.origin
unfolding outgoing
outgoing-origin m r s pv maps h =
    let (v, e, k) = >>=-eq-done (out_of_type m pv.type pv maps r.value) _ h in ground (arith, k)
