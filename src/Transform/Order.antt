-- ===== src/Transform/Order.antt =====
-- The order of the integer steps on the way out, and what each computes.
use device_service_zigbee.Prelude.{
  suc, ◌^◌, ◌*◌, ◌/◌, ◌<◌, ◌≡◌, ◌⊎◌, inl, inr, ap, sym, true, false, arith, lt→ltb,
}
use device_service_zigbee.Prelude.Int.{ℤ, pos, negsuc, ◌+ℤ◌}
use device_service_zigbee.Prelude.Outcome.{Outcome, done}
use device_service_zigbee.Value.{Value}
use device_service_zigbee.Value.Equal.{CommandResult}
use device_service_zigbee.Transform.{
  TransformArg, PropertyValue, NvPairs, LongDouble, transforms_on, get_int, overflow, step,
  shift_out, int_out, outgoing,
}
use device_service_zigbee.Transform.Arith.{
  Fits, and, mul, checked, shift_left, shift_right, mul64, add64,
}
use device_service_zigbee.Transform.Integers.{IsInt, InRange, Holds, outgoing_int}

-- a step that the profile asks for, or none
abbrev pub Stepped : TransformArg → (ℤ → ℤ → Type 0) → ℤ → ℤ → Type 0
Stepped arg R a b = ((arg.enabled ≡ true) × R a b) ⊎ ((arg.enabled ≡ false) × (b ≡ a))

-- by `k` places to the right, rounded down, or to the left, for what is not negative
abbrev pub Shifted : ℤ → ℤ → ℤ → Type 0
Shifted (pos k) (pos n) b = (k < 64) × (b ≡ pos (n / 2 ^ k))
Shifted (pos k) (negsuc n) b = (k < 64) × (b ≡ negsuc (n / 2 ^ k))
Shifted (negsuc k) (pos n) b = (suc k < 64) × (b ≡ pos (n * 2 ^ suc k)) × Fits b
Shifted (negsuc k) (negsuc n) b = ⊥

-- an exact result that a `long long` holds
abbrev pub Exactly : ℤ → ℤ → Type 0
Exactly x b = (b ≡ x) × Fits b

abbrev pub Masks : PropertyValue → ℤ → ℤ → Type 0
Masks pv a b = b ≡ and a pv.mask.ival

abbrev pub Raises : LongDouble → PropertyValue → ℤ → ℤ → Type 0
Raises m pv a b = m.to_int (m.pow (m.of_int pv.base.ival) (m.of_int a)) ≡ done b

abbrev pub Scales : PropertyValue → ℤ → ℤ → Type 0
Scales pv a b = Exactly (mul a pv.scale.ival) b

abbrev pub Offsets : PropertyValue → ℤ → ℤ → Type 0
Offsets pv a b = Exactly (a +ℤ pv.offset.ival) b

-- first the mask, then the shift, the base, the scale and the offset
pub record Computes (m : LongDouble) (pv : PropertyValue) (z y : ℤ) : Type 0 where
  pub masked : ℤ
  pub shifted : ℤ
  pub raised : ℤ
  pub scaled : ℤ
  pub mask : Stepped pv.mask (Masks pv) z masked
  pub shift : Stepped pv.shift (Shifted pv.shift.ival) masked shifted
  pub base : Stepped pv.base (Raises m pv) shifted raised
  pub scale : Stepped pv.scale (Scales pv) raised scaled
  pub offset : Stepped pv.offset (Offsets pv) scaled y

step-Stepped :
    (arg : TransformArg) (R : ℤ → ℤ → Type 0) (f : ℤ → Outcome ℤ) (a b : ℤ)
    → (R a b → f a ≡ done b)
    → Stepped arg R a b
    → step arg f a ≡ done b
step-Stepped arg R f a b runs (inl (on, h)) = ground (arith, on, runs h)
step-Stepped arg R f a b runs (inr (off, same)) = ground (arith, off, same)

checked-Exactly : (x b : ℤ) → Exactly x b → checked x ≡ done b
unfolding checked
checked-Exactly (pos n) b (e, f) = ground (arith, e, f)
checked-Exactly (negsuc n) b (e, f) = ground (arith, e, f)

mul64-Exactly : (a k b : ℤ) → Exactly (mul a k) b → mul64 a k ≡ done b
unfolding mul64
mul64-Exactly a k b h = checked-Exactly (mul a k) b h

add64-Exactly : (a k b : ℤ) → Exactly (a +ℤ k) b → add64 a k ≡ done b
unfolding add64
add64-Exactly a k b h = checked-Exactly (a +ℤ k) b h

shift_out-Shifted : (k a b : ℤ) → Shifted k a b → shift_out k a ≡ done b
unfolding shift_left shift_right
shift_out-Shifted (pos k) (pos n) b (h, e) = ground (arith, h, e)
shift_out-Shifted (pos k) (negsuc n) b (h, e) = ground (arith, h, e)
shift_out-Shifted (negsuc k) (pos n) b (h, e, f) =
    let exact = checked-Exactly (pos (n * 2 ^ suc k)) b (e, f) in rw (lt→ltb (suc k) 64 h) exact
shift_out-Shifted (negsuc k) (negsuc n) b h = absurd h

module _ (m : LongDouble) where
  int_out-Computes : (pv : PropertyValue) (z y : ℤ) → Computes m pv z y → int_out m pv z ≡ done y
  unfolding int_out
  int_out-Computes pv z y c =
      let e₁ =
        step-Stepped pv.mask (Masks pv) (λ a. done (and a pv.mask.ival)) z c.masked
          (λ h. ap done (sym h)) c.mask in
      let e₂ =
        step-Stepped pv.shift (Shifted pv.shift.ival) (shift_out pv.shift.ival) c.masked c.shifted
          (shift_out-Shifted pv.shift.ival c.masked c.shifted) c.shift in
      let e₃ =
        step-Stepped pv.base (Raises m pv)
          (λ a. m.to_int (m.pow (m.of_int pv.base.ival) (m.of_int a))) c.shifted c.raised (λ h. h)
          c.base in
      let e₄ =
        step-Stepped pv.scale (Scales pv) (λ a. mul64 a pv.scale.ival) c.raised c.scaled
          (mul64-Exactly c.raised pv.scale.ival c.scaled) c.scale in
      let e₅ =
        step-Stepped pv.offset (Offsets pv) (λ a. add64 a pv.offset.ival) c.scaled y
          (add64-Exactly c.scaled pv.offset.ival y) c.offset in
      rw (e₁, e₂, e₃, e₄) e₅

  -- A reading of an integer type that is to be transformed is masked, shifted, raised from the base, scaled
  -- and offset, in this order, as far as the profile asks for it. It becomes the result, as a value of
  -- its type, or the text "overflow"; and it is the text exactly if the result is no number of the
  -- type. It is assumed that C defines all of these steps: the results fit a `long long`, amounts of
  -- shifts are below 64, and nothing negative is shifted left.
  pub outgoing-Computes :
      (r : CommandResult) (pv : PropertyValue) (maps : NvPairs) (z y : ℤ)
      → IsInt pv.type
      → transforms_on pv ≡ true
      → get_int r.value pv.type ≡ done z
      → Computes m pv z y
      → Fits y
      → ((outgoing m r pv maps ≡ done (record r { value = overflow })) × ¬ InRange pv.type y)
        ⊎ ((v : Value) × (outgoing m r pv maps ≡ done (record r { value = v }))
            × InRange pv.type y
            × Holds pv.type v y)
  outgoing-Computes r pv maps z y i on g c f =
      outgoing_int m r pv maps z y i on g (int_out-Computes pv z y c) f
