-- ===== src/Transform/Inverse.antt =====
-- Which of the operations on `long long` undo one another.
use device_service_zigbee.Prelude.{
  ℕ, zero, suc, ◌*◌, ◌/◌, ◌^◌, ◌<◌, ◌≡◌, refl, sym, ap, ◌∙◌, false, arith, ltb, ltb→lt, Bool-cases,
  inl, inr,
}
use device_service_zigbee.Prelude.Int.{ℤ, pos, negsuc, ◌+ℤ◌, +ℤ_cancel}
use device_service_zigbee.Prelude.Outcome.{done}
use native.Mathlib.Nat.{mul-div_cancel, zero-div, pow-suc}
use device_service_zigbee.Transform.Arith.{
  Fits, checked, neg, mul, quot, is_zero, shift_left, shift_right, add64, sub64, mul64, div64,
}

two-pow_pos : (k : ℕ) → 0 < 2 ^ k
two-pow_pos zero = omega arith
two-pow_pos (suc k) = omega (arith, two-pow_pos k, pow-suc 2 k)

pub checked-Fits : (z : ℤ) → Fits z → checked z ≡ done z
unfolding checked
checked-Fits (pos n) h = ground arith
checked-Fits (negsuc n) h = ground arith

pub checked_done : (z y : ℤ) → checked z ≡ done y → (y ≡ z) × Fits y
unfolding checked
checked_done (pos n) y h = elim (Bool-cases (ltb n (2 ^ 63))) [
  | inl e ↦ let same : y ≡ pos n = ground (arith, e) in (same, rw same (ltb→lt n (2 ^ 63) e))
  | inr e ↦ ground (arith, e)
]
checked_done (negsuc n) y h = elim (Bool-cases (ltb n (2 ^ 63))) [
  | inl e ↦ let same : y ≡ negsuc n = ground (arith, e) in (same, rw same (ltb→lt n (2 ^ 63) e))
  | inr e ↦ ground (arith, e)
]

pub sub64-add64 : (a b y : ℤ) → Fits a → add64 a b ≡ done y → (sub64 y b ≡ done a) × Fits y
unfolding add64 sub64
sub64-add64 a b y h e =
    let (same, f) = checked_done (a +ℤ b) y e in (rw (same, +ℤ_cancel a b) (checked-Fits a h), f)

quot-neg-pos : (n b : ℕ) → quot (neg n) (pos b) ≡ neg (n / b)
unfolding quot
quot-neg-pos zero b = ap pos (zero-div b) ∙ sym (ap neg (zero-div b))
quot-neg-pos (suc n) b = refl

quot-neg-neg : (n b : ℕ) → quot (neg n) (negsuc b) ≡ pos (n / suc b)
unfolding quot
quot-neg-neg zero b = ap neg (zero-div (suc b)) ∙ sym (ap pos (zero-div (suc b)))
quot-neg-neg (suc n) b = refl

quot-mul : (a b : ℤ) → is_zero b ≡ false → quot (mul a b) b ≡ a
unfolding mul
quot-mul (pos a) (pos b) h = unfold quot in ap pos (mul-div_cancel a (ground arith))
quot-mul (pos a) (negsuc b) h = quot-neg-neg (a * suc b) b ∙ ap pos (mul-div_cancel a (omega arith))
quot-mul (negsuc a) (pos b) h =
    quot-neg-pos (suc a * b) b ∙ ap neg (mul-div_cancel (suc a) (ground arith))
quot-mul (negsuc a) (negsuc b) h = unfold quot in ap neg (mul-div_cancel (suc a) (omega arith))

pub div64-mul64 :
    (a b y : ℤ) → Fits a → is_zero b ≡ false → mul64 a b ≡ done y → (div64 y b ≡ done a) × Fits y
unfolding mul64 div64
div64-mul64 a b y h z e =
    let (same, f) = checked_done (mul a b) y e in
    (rw (same, z, quot-mul a b z) (checked-Fits a h), f)

pub shift_right-left :
    (a y : ℤ) (k : ℕ) → shift_left a k ≡ done y → (shift_right y k ≡ done a) × Fits y
unfolding shift_left shift_right
shift_right-left (negsuc n) y k e = cc
shift_right-left (pos n) y k e = elim (Bool-cases (ltb k 64)) [
  | inl few ↦
      let (same, f) = checked_done (pos (n * 2 ^ k)) y (ground (arith, few)) in
      (rw same (rw few (ap (λ q. done (pos q)) (mul-div_cancel n (two-pow_pos k)))), f)
  | inr many ↦ ground (arith, many)
]
