-- ===== src/Transform/Arith.antt =====
-- The C arithmetic on `long long` that transform.c uses. Where C gives an operation no meaning, as
-- for a signed overflow, it is a fault.
use Prim.Native.Nat.{bit_and}
use device_service_zigbee.Prelude.{
  ℕ, zero, suc, ◌-◌, ◌*◌, ◌/◌, ◌^◌, ◌<◌, Bool, false, ltb, ◌==◌, if◌then◌else◌,
}
use device_service_zigbee.Prelude.Int.{ℤ, pos, negsuc, ◌+ℤ◌, ◌-ℤ◌, to_word}
use device_service_zigbee.Prelude.Outcome.{Outcome, done, fault, bad_arithmetic}

-- the bound of a `long long`
abbrev pub Fits : ℤ → Type 0
Fits (pos n) = n < 2 ^ 63
Fits (negsuc n) = n < 2 ^ 63

unfoldable pub checked : ℤ → Outcome ℤ
checked (pos n) = if ltb n (2 ^ 63) then done (pos n) else fault bad_arithmetic
checked (negsuc n) = if ltb n (2 ^ 63) then done (negsuc n) else fault bad_arithmetic

-- the `long long` of 64 bits
unfoldable pub of_word : ℕ → ℤ
of_word n = if ltb n (2 ^ 63) then pos n else negsuc (2 ^ 64 - 1 - n)

abbrev pub neg : ℕ → ℤ
neg zero = pos 0
neg (suc n) = negsuc n

unfoldable pub and : ℤ → ℤ → ℤ
unfolding of_word
and a b = of_word (bit_and (to_word (2 ^ 64) a) (to_word (2 ^ 64) b))

-- the left operand of `<<` is to be positive, and the result to fit
unfoldable pub shift_left : ℤ → ℕ → Outcome ℤ
unfolding checked
shift_left (pos n) k = if ltb k 64 then checked (pos (n * 2 ^ k)) else fault bad_arithmetic
shift_left (negsuc n) k = fault bad_arithmetic

-- `>>` on a negative number keeps the sign
unfoldable pub shift_right : ℤ → ℕ → Outcome ℤ
shift_right (pos n) k = if ltb k 64 then done (pos (n / 2 ^ k)) else fault bad_arithmetic
shift_right (negsuc n) k = if ltb k 64 then done (negsuc (n / 2 ^ k)) else fault bad_arithmetic

unfoldable pub mul : ℤ → ℤ → ℤ
mul (pos a) (pos b) = pos (a * b)
mul (pos a) (negsuc b) = neg (a * suc b)
mul (negsuc a) (pos b) = neg (suc a * b)
mul (negsuc a) (negsuc b) = pos (suc a * suc b)

-- towards 0, for a divisor that is not 0
unfoldable pub quot : ℤ → ℤ → ℤ
quot (pos a) (pos b) = pos (a / b)
quot (pos a) (negsuc b) = neg (a / suc b)
quot (negsuc a) (pos b) = neg (suc a / b)
quot (negsuc a) (negsuc b) = pos (suc a / suc b)

unfoldable pub add64 : ℤ → ℤ → Outcome ℤ
unfolding checked ◌+ℤ◌
add64 a b = checked (a +ℤ b)

unfoldable pub sub64 : ℤ → ℤ → Outcome ℤ
unfolding checked ◌-ℤ◌
sub64 a b = checked (a -ℤ b)

unfoldable pub mul64 : ℤ → ℤ → Outcome ℤ
unfolding checked mul
mul64 a b = checked (mul a b)

abbrev pub is_zero : ℤ → Bool
is_zero (pos n) = n == 0
is_zero (negsuc n) = false

unfoldable pub div64 : ℤ → ℤ → Outcome ℤ
unfolding checked quot
div64 a b = if is_zero b then fault bad_arithmetic else checked (quot a b)
