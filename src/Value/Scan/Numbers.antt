-- ===== src/Value/Scan/Numbers.antt =====
-- `%u` and `%i` read back the numbers that `%u` and `%d` write.
use device_service_zigbee.Prelude.{
  ℕ, zero, suc, ◌^◌, ◌+◌, ◌-◌, ◌*◌, ◌<◌, ◌≡◌, false, some, [], ◌∷◌, Bytes, All, arith, lt→ltb, refl,
}
use device_service_zigbee.Prelude.Int.{ℤ, pos, negsuc}
use device_service_zigbee.Prelude.Outcome.{done}
use device_service_zigbee.Prelude.Decimal.{
  IsDigit, decimal, scan_digits, skip_space, decimal-IsDigit, decimal-cons, decimal_head,
  scan_digits-decimal,
}
use device_service_zigbee.Value.{FitsSigned, signed_decimal}
use device_service_zigbee.Value.Scan.{
  scan_base, number, any_base, hex_or_octal, split_sign, unsigned_of, signed_of, scan_unsigned,
  scan_signed,
}

scan_base-ten : (s : Bytes) (acc : ℕ) → scan_base 10 s acc ≡ scan_digits s acc
unfolding scan_base scan_digits
scan_base-ten [] acc = refl
scan_base-ten (c ∷ s) acc = ground (arith, scan_base-ten s (acc * 10 + (c - b'0')))

number-decimal : (n : ℕ) → number 10 (decimal n) ≡ some n
number-decimal n =
    let (c, s, e) = decimal-cons n in
    let all : All IsDigit (c ∷ s) = rw e at (decimal-IsDigit n) in
    let value : scan_digits (c ∷ s) 0 ≡ n = rw e at (scan_digits-decimal n) in
    rw e (unfold number in ground (arith, all.0, scan_base-ten (c ∷ s) 0, value))

any_base-decimal : (n : ℕ) → any_base (decimal n) ≡ some n
unfolding any_base
any_base-decimal zero = unfold decimal hex_or_octal in refl
any_base-decimal (suc n) =
    let (c, s, e, q) = decimal_head (suc n) (omega arith) in
    let value : number 10 (c ∷ s) ≡ some (suc n) = rw e at (number-decimal (suc n)) in
    rw e (ground (arith, q, value))

no_sign : (c : ℕ) (s : Bytes) → IsDigit c → split_sign (skip_space (c ∷ s)) ≡ (false, c ∷ s)
unfolding split_sign skip_space
no_sign c s h = ground arith

split-decimal : (n : ℕ) → split_sign (skip_space (decimal n)) ≡ (false, decimal n)
split-decimal n =
    let (c, s, e) = decimal-cons n in
    let all : All IsDigit (c ∷ s) = rw e at (decimal-IsDigit n) in rw e (no_sign c s all.0)

pub scan_unsigned-decimal : (k n : ℕ) → n < 2 ^ k → scan_unsigned k (decimal n) ≡ done (some n)
unfolding scan_unsigned unsigned_of
scan_unsigned-decimal k n h = rw (split-decimal n, number-decimal n, lt→ltb n (2 ^ k) h)

pub scan_signed-decimal :
    (k : ℕ) (z : ℤ) → FitsSigned k z → scan_signed k (signed_decimal z) ≡ done (some z)
unfolding scan_signed signed_of signed_decimal
scan_signed-decimal k (pos zero) h = rw (split-decimal zero, any_base-decimal zero)
scan_signed-decimal k (pos (suc n)) h =
    rw (split-decimal (suc n), any_base-decimal (suc n), lt→ltb (suc n) (2 ^ (k - 1)) h)
scan_signed-decimal k (negsuc n) h = rw (any_base-decimal (suc n), lt→ltb n (2 ^ (k - 1)) h)
