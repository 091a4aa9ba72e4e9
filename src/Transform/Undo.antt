-- ===== src/Transform/Undo.antt =====
-- A setting that went out through the profile of its resource comes back in through it.
use device_service_zigbee.Prelude.{
  ℕ, suc, ◌^◌, ◌<◌, ◌≡◌, ◌≢◌, inl, inr, refl, ap, sym, ◌∙◌, true, false, some, arith, Bool-cases,
}
use mathlib.Core.Path.{subst}
use device_service_zigbee.Prelude.Int.{ℤ, pos, negsuc}
use device_service_zigbee.Prelude.Outcome.{Outcome, done, ◌>>=◌, >>=-eq-done, Outcome-cases}
use device_service_zigbee.Value.{
  w8, w16, w32, w64, PropertyType, uint, int, Value, uint_result, int_result, type_of, IsValue,
}
use device_service_zigbee.Value.Equal.{CommandResult}
use device_service_zigbee.Transform.{
  TransformArg, PropertyValue, NvPairs, LongDouble, transforms_on, get_int, set_int, set_unsigned,
  set_signed, step, shift_out, shift_in, int_out, int_in, transform_in_int, in_value, in_of_type,
  incoming, outgoing, overflow, transform_out_int,
}
use device_service_zigbee.Transform.Arith.{of_word, Fits, is_zero, mul64, div64, add64, sub64}
use device_service_zigbee.Transform.Inverse.{sub64-add64, div64-mul64, shift_right-left}
use device_service_zigbee.Transform.Integers.{IsInt, InRange, Holds, out_int, outgoing_int}

-- the shift goes to the left on the way out
abbrev pub Leftwards : ℤ → Type 0
Leftwards (pos k) = ⊥
Leftwards (negsuc k) = Unit

-- a profile without a mask and a base, whose shift loses no bits and whose scale is not 0
pub record IsReversible (pv : PropertyValue) : Type 0 where
  pub no_mask : pv.mask.enabled ≡ false
  pub no_base : pv.base.enabled ≡ false
  pub shift : pv.shift.enabled ≡ true → Leftwards pv.shift.ival
  pub scale : pv.scale.enabled ≡ true → is_zero pv.scale.ival ≡ false

abbrev Undoes : (ℤ → Outcome ℤ) → ℤ → ℤ → Type 0
Undoes g a b = (g b ≡ done a) × Fits b

step_undo :
    (arg : TransformArg) (f g : ℤ → Outcome ℤ) (a b : ℤ)
    → Fits a
    → (arg.enabled ≡ true → f a ≡ done b → Undoes g a b)
    → step arg f a ≡ done b
    → Undoes (step arg g) a b
step_undo arg f g a b fits undo h = elim (Bool-cases arg.enabled) [
  | inl on ↦
      let (back, fits') = undo on (ground (arith, on, h)) in (ground (arith, on, back), fits')
  | inr off ↦
      let same : a ≡ b = ground (arith, off, h) in (ground (arith, off, same), subst Fits same fits)
]

step_off :
    (arg : TransformArg) (f : ℤ → Outcome ℤ) (a : ℤ) → arg.enabled ≡ false → step arg f a ≡ done a
step_off arg f a h = ground (arith, h)

shift_undo : (k a b : ℤ) → Leftwards k → shift_out k a ≡ done b → Undoes (shift_in k) a b
shift_undo (negsuc k) a b h e = shift_right-left a b (suc k) e
shift_undo (pos k) a b h e = absurd h

module _ (m : LongDouble) (pv : PropertyValue) (rev : IsReversible pv) where
  -- the two steps that a reversible profile leaves out
  int_out_rev :
      (z : ℤ)
      → int_out m pv z ≡ (
          step pv.shift (shift_out pv.shift.ival) z >>= λ a.
          step pv.scale (λ c. mul64 c pv.scale.ival) a
          >>= step pv.offset (λ c. add64 c pv.offset.ival))
  unfolding int_out
  int_out_rev z = simp (rev.no_mask, rev.no_base)

  int_in_undo : (z y : ℤ) → Fits z → int_out m pv z ≡ done y → Undoes (int_in m pv) z y
  unfolding int_in
  int_in_undo z y fits h =
      let (a, e, h₁) =
        >>=-eq-done (step pv.shift (shift_out pv.shift.ival) z) _ (sym (int_out_rev z) ∙ h) in
      let (b, e₁, e₂) = >>=-eq-done (step pv.scale (λ c. mul64 c pv.scale.ival) a) _ h₁ in
      let (u, fa) =
        step_undo pv.shift (shift_out pv.shift.ival) (shift_in pv.shift.ival) z a fits
          (λ on. shift_undo pv.shift.ival z a (rev.shift on)) e in
      let (u₁, fb) =
        step_undo pv.scale (λ c. mul64 c pv.scale.ival) (λ c. div64 c pv.scale.ival) a b fa
          (λ on. div64-mul64 a pv.scale.ival b fa (rev.scale on)) e₁ in
      let (u₂, fy) =
        step_undo pv.offset (λ c. add64 c pv.offset.ival) (λ c. sub64 c pv.offset.ival) b y fb
          (λ on. sub64-add64 b pv.offset.ival y fb) e₂ in
      (ground (arith, u₂, u₁, rev.no_base, u), fy)

in_int :
    (m : LongDouble) (t : PropertyType) (pv : PropertyValue) (maps : NvPairs) (v : Value)
    → IsInt t
    → in_of_type m t pv maps v ≡ transform_in_int m pv v
unfolding in_of_type
in_int m (uint w) pv maps v h = refl
in_int m (int w) pv maps v h = refl
in_int m _ pv maps v h = absurd h

word-back :
    (n : ℕ) (z : ℤ)
    → of_word n ≡ z
    → n < 2 ^ 64
    → InRange (uint w64) z
    → set_unsigned w64 z ≡ some (uint_result w64 n)
unfolding set_unsigned of_word
word-back n (pos k) e h l = ground arith
word-back n (negsuc k) e h l = absurd l

set-get :
    (v : Value) (z : ℤ)
    → IsInt (type_of v)
    → get_int v (type_of v) ≡ done z
    → IsValue v
    → InRange (type_of v) z
    → set_int z (type_of v) ≡ done (some v)
unfolding set_int set_unsigned set_signed get_int of_word
set-get (uint_result w8 n) z i g h k = ground arith
set-get (uint_result w16 n) z i g h k = ground arith
set-get (uint_result w32 n) z i g h k = ground arith
set-get (uint_result w64 n) z i g h k = ap done (word-back n z (ground arith) h k)
set-get (int_result w8 y) z i g h k = ground arith
set-get (int_result w16 y) z i g h k = ground arith
set-get (int_result w32 y) z i g h k = ground arith
set-get (int_result w64 y) z i g h k = ground arith
set-get _ z i g h k = absurd i

set-get-at :
    (t : PropertyType) (v : Value) (z : ℤ)
    → type_of v ≡ t
    → IsInt t
    → get_int v t ≡ done z
    → IsValue v
    → InRange t z
    → set_int z t ≡ done (some v)
set-get-at t v z e =
    subst
      (λ u. IsInt u → get_int v u ≡ done z → IsValue v → InRange u z → set_int z u ≡ done (some v))
      e (set-get v z)

module _ (m : LongDouble) (pv : PropertyValue) (rev : IsReversible pv) (r : CommandResult) where
  back :
      (v : Value) (maps : NvPairs) (z y : ℤ)
      → IsInt pv.type
      → transforms_on pv ≡ true
      → set_int z pv.type ≡ done (some r.value)
      → int_in m pv y ≡ done z
      → get_int v pv.type ≡ done y
      → incoming m (record r { value = v }) pv maps ≡ done (true, r)
  unfolding incoming transform_in_int in_value
  back v maps z y i on s e g = ground (arith, in_int m pv.type pv maps v i, on, s, e, g)

  -- What goes out through a reversible profile comes back as it was: for a value of an integer type
  -- that a `long long` holds, unless the way out has no meaning in C or ends in "overflow".
  pub incoming-outgoing :
      (s : CommandResult) (maps maps' : NvPairs) (z : ℤ)
      → IsInt pv.type
      → Holds pv.type r.value z
      → InRange pv.type z
      → Fits z
      → outgoing m r pv maps ≡ done s
      → s.value ≢ overflow
      → incoming m s pv maps' ≡ done (true, r)
  unfolding outgoing transform_out_int
  incoming-outgoing s maps maps' z i (g, h, t) k f o n =
      let whole = out_int m pv.type pv maps r.value i in
      elim (Bool-cases (transforms_on pv)) [
        | inr off ↦
            let same : s ≡ r = ground (arith, off, whole, o) in
            rw same (
              unfold incoming transform_in_int in
              ground (arith, off, in_int m pv.type pv maps' r.value i))
        | inl on ↦ elim (Outcome-cases (int_out m pv z)) [
          | inr (e, bad) ↦ ground (arith, on, whole, o, g, bad)
          | inl (y, e) ↦
              let (undone, fits) = int_in_undo m pv rev z y f e in
              elim (outgoing_int m r pv maps z y i on g e fits) [
                | inl (over, _) ↦ absurd (n (ground (arith, over, o)))
                | inr (v, stored, _, (gv, _, _)) ↦
                    let same : s ≡ record r { value = v } = ground (arith, stored, o) in
                    rw same
                      (back v maps' z y i on (set-get-at pv.type r.value z t i g h k) undone gv)
              ]
        ]
      ]
