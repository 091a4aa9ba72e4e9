-- ===== src/Value/Equal.antt =====
-- device-sdk-c/src/c/data.c: copies of arrays of results, and their comparison. The two arrays of a
-- comparison have the same length in the source; past the end of one of them is a fault.
use device_service_zigbee.Prelude.{
  ℕ, ◌≡◌, ◌↔◌, refl, ap, Bool, true, false, ◌&&◌, List, [], ◌∷◌, map, Bytes, All, arith, ◌==◌,
  if◌then◌else◌, str_eq, str_eq_iff, str_eq_self, ==_self,
}
use mathlib.Core.Path.{subst}
use device_service_zigbee.Prelude.Int.{ℤ, pos, negsuc}
use device_service_zigbee.Prelude.Outcome.{Outcome, done, fault, out_of_bounds}
use device_service_zigbee.Value.{
  Width, w8, w16, w32, w64, Value, bool_result, string_result, binary_result, uint_result,
  int_result, f32_result, f64_result,
}

-- `edgex_device_commandresult`
pub record CommandResult : Type 0 where
  pub origin : ℕ
  pub value : Value

-- `edgex_device_commandresult_dup`: the copies come from `calloc`, and their origin is never set
pub dup : List CommandResult → List CommandResult
dup [] = []
dup (r ∷ rs) = record { origin = 0; value = r.value } ∷ dup rs

abbrev same_width : Width → Width → Bool
same_width w8 w8 = true
same_width w16 w16 = true
same_width w32 w32 = true
same_width w64 w64 = true
same_width _ _ = false

same_width_self : (w : Width) → same_width w w ≡ true
same_width_self w8 = refl
same_width_self _ = refl

same_width→eq : (w w' : Width) → same_width w w' ≡ true → w ≡ w'
same_width→eq w8 w8 e = refl
same_width→eq w16 w16 e = refl
same_width→eq w32 w32 e = refl
same_width→eq w64 w64 e = refl
same_width→eq _ _ e = cc

abbrev same_bool : Bool → Bool → Bool
same_bool true true = true
same_bool false false = true
same_bool _ _ = false

abbrev same_int : ℤ → ℤ → Bool
same_int (pos m) (pos n) = m == n
same_int (negsuc m) (negsuc n) = m == n
same_int _ _ = false

same_bool→eq : (a b : Bool) → same_bool a b ≡ true → a ≡ b
same_bool→eq true true e = refl
same_bool→eq false false e = refl
same_bool→eq _ _ e = cc

same_int_self : (z : ℤ) → same_int z z ≡ true
same_int_self (pos n) = ==_self n
same_int_self (negsuc n) = ==_self n

same_int→eq : (y z : ℤ) → same_int y z ≡ true → y ≡ z
same_int→eq (pos m) (pos n) e = ground arith
same_int→eq (negsuc m) (negsuc n) e = ground arith
same_int→eq _ _ e = cc

-- `==` on floats, as the machine has it: no NaN equals itself, and the two zeros are equal
pub record FloatEq : Type 0 where
  pub eq32 : Bytes → Bytes → Bool
  pub eq64 : Bytes → Bytes → Bool

module _ (f : FloatEq) where
  -- a round of the loop: the types first, then the member
  pub value_equal : Value → Value → Bool
  value_equal (bool_result a) (bool_result b) = same_bool a b
  value_equal (string_result s) (string_result t) = str_eq s t
  value_equal (binary_result s) (binary_result t) = str_eq s t
  value_equal (uint_result w m) (uint_result w' n) = same_width w w' && m == n
  value_equal (int_result w m) (int_result w' n) = same_width w w' && same_int m n
  value_equal (f32_result a) (f32_result b) = f.eq32 a b
  value_equal (f64_result a) (f64_result b) = f.eq64 a b
  value_equal _ _ = false

  -- `edgex_device_commandresult_equal`
  pub equal : List CommandResult → List CommandResult → Outcome Bool
  equal [] [] = done true
  equal [] (s ∷ ss) = fault out_of_bounds
  equal (r ∷ rs) [] = fault out_of_bounds
  equal (r ∷ rs) (s ∷ ss) =
      let rest = equal rs ss in if value_equal r.value s.value then rest else done false

  -- the value equals itself: it is not a NaN
  abbrev pub IsNumber : Value → Type 0
  IsNumber (f32_result b) = f.eq32 b b ≡ true
  IsNumber (f64_result b) = f.eq64 b b ≡ true
  IsNumber _ = Unit

  value_equal_self : (v : Value) → IsNumber v → value_equal v v ≡ true
  unfolding value_equal
  value_equal_self (bool_result true) h = refl
  value_equal_self (bool_result false) h = refl
  value_equal_self (string_result s) h = str_eq_self s
  value_equal_self (binary_result s) h = str_eq_self s
  value_equal_self (uint_result w n) h = rw (same_width_self w) (==_self n)
  value_equal_self (int_result w z) h = rw (same_width_self w) (same_int_self z)
  value_equal_self (f32_result b) h = h
  value_equal_self (f64_result b) h = h

  -- An array of results equals its copy, unless it holds a NaN: the copy that an autoevent keeps
  -- suppresses an event with the same readings.
  pub equal-dup :
      (rs : List CommandResult) → All (λ r. IsNumber r.value) rs → equal rs (dup rs) ≡ done true
  unfolding equal dup
  equal-dup [] h = refl
  equal-dup (r ∷ rs) h = ground (arith, value_equal_self r.value h.0, equal-dup rs h.1)

  -- no float
  abbrev pub IsPlain : Value → Type 0
  IsPlain (f32_result b) = ⊥
  IsPlain (f64_result b) = ⊥
  IsPlain _ = Unit

  plain-IsNumber : (v : Value) → IsPlain v → IsNumber v
  plain-IsNumber (f32_result b) h = absurd h
  plain-IsNumber (f64_result b) h = absurd h
  plain-IsNumber v h = tt

  value_equal→eq : (v w : Value) → IsPlain v → value_equal v w ≡ true → v ≡ w
  unfolding value_equal
  value_equal→eq (bool_result a) (bool_result b) h e = ap bool_result (same_bool→eq a b e)
  value_equal→eq (string_result s) (string_result t) h e = ap string_result ((str_eq_iff s t).0 e)
  value_equal→eq (binary_result s) (binary_result t) h e = ap binary_result ((str_eq_iff s t).0 e)
  value_equal→eq (uint_result w m) (uint_result w' n) h e = ground (arith, same_width→eq w w')
  value_equal→eq (int_result w m) (int_result w' n) h e =
      ground (arith, same_width→eq w w', same_int→eq m n)
  value_equal→eq (f32_result a) w h e = absurd h
  value_equal→eq (f64_result a) w h e = absurd h
  value_equal→eq v w h e = cc

  -- Where no reading is a float, the comparison that suppresses an unchanged event says "equal" of
  -- two arrays exactly if they hold the same types and values, whatever their origins.
  pub equal_iff :
      (rs ss : List CommandResult)
      → All (λ r. IsPlain r.value) rs
      → (equal rs ss ≡ done true) ↔ (map (λ r. r.value) rs ≡ map (λ r. r.value) ss)
  unfolding equal
  equal_iff [] [] h = (λ e. refl, λ e. refl)
  equal_iff [] (s ∷ ss) h = (λ e. cc, λ e. cc)
  equal_iff (r ∷ rs) [] h = (λ e. cc, λ e. cc)
  equal_iff (r ∷ rs) (s ∷ ss) h = (
    λ e. ground (arith, value_equal→eq r.value s.value h.0, (equal_iff rs ss h.1).0),
    λ e.
        let first : r.value ≡ s.value = cc in
        let others : map (λ x. x.value) rs ≡ map (λ x. x.value) ss = cc in
        let same : value_equal r.value s.value ≡ true =
          subst (λ v. value_equal r.value v ≡ true) first
            (value_equal_self r.value (plain-IsNumber r.value h.0)) in
        ground (arith, same, (equal_iff rs ss h.1).1 others),
  )
